-- ===== src/Match/Combat/Boards.antt =====
-- The cards on a board of src/module/match/match.service.ts, and what a hit leaves of them.
use zombiies_api.Common.{
  ℕ, zero, suc, ◌-◌, ◌≤◌, ◌<◌, ◌≡◌, refl, ◌∙◌, inl, inr, Bool, Option, none, some, List, [], ◌∷◌,
  map, leb, ◌==◌, if◌then◌else◌, length, find, get_elem?, All, Random, arith, Bool-cases,
  Option-cases,
}
use zombiies_api.Card.Model.{CardSkillType, melee, ranged, magic, random, hp, armor, CardSkillModel}
use zombiies_api.Match.Model.{BoardCardModel}
use zombiies_api.Match.Combat.{
  find_skill, value_or_zero, get_hp_of, sub_skill, sub_hp_of, at_position, get_target, hit_board,
  get_diagonal,
}

-- The card of a token on a board, and the health points it has left, 0 for a card that is gone.
abbrev pub card_of : ℕ → List BoardCardModel → Option BoardCardModel
card_of token = find (λ c. c.card.token_id == token)

abbrev hp_or_zero : Option BoardCardModel → ℕ
hp_or_zero none = 0
hp_or_zero (some c) = get_hp_of c.card

abbrev pub hp_left : ℕ → List BoardCardModel → ℕ
hp_left token board = hp_or_zero (card_of token board)

abbrev pub IsAlive : List BoardCardModel → Type 0
IsAlive = All (λ c. 0 < get_hp_of c.card)

-- No token lies on the board twice.
abbrev pub IsDistinct : List BoardCardModel → Type 0
IsDistinct [] = Unit
IsDistinct (c ∷ cs) = (card_of c.card.token_id cs ≡ none) × IsDistinct cs

find_skill-sub_skill :
    (dame : ℕ) (skills : List CardSkillModel)
    → value_or_zero (find_skill hp (map (sub_skill dame) skills))
      ≡ value_or_zero (find_skill hp skills) - dame
find_skill-sub_skill dame [] = omega arith
find_skill-sub_skill dame (s ∷ skills) = ground (arith, find_skill-sub_skill dame skills)

-- A hit takes exactly its damage, and never below 0.
pub get_hp_of-sub_hp_of :
    (c : BoardCardModel) (dame : ℕ) → get_hp_of (sub_hp_of c dame).card ≡ get_hp_of c.card - dame
unfolding get_hp_of sub_hp_of
get_hp_of-sub_hp_of c dame = find_skill-sub_skill dame c.card.skills

pub token_id-sub_hp_of :
    (c : BoardCardModel) (dame : ℕ) → (sub_hp_of c dame).card.token_id ≡ c.card.token_id
unfolding sub_hp_of
token_id-sub_hp_of c dame = refl

-- A board after a hit holds only cards with health points left.
pub hit_board-IsAlive :
    (token dame : ℕ) (board : List BoardCardModel) → IsAlive (hit_board token dame board)
unfolding hit_board
hit_board-IsAlive token dame [] = tt
hit_board-IsAlive token dame (c ∷ cs) = ground (arith, hit_board-IsAlive token dame cs)

-- A card that is not there before a hit is not there after it.
card_of-hit_board-none :
    (k token dame : ℕ) (board : List BoardCardModel)
    → card_of k board ≡ none
    → card_of k (hit_board token dame board) ≡ none
unfolding hit_board
card_of-hit_board-none k token dame [] h = refl
card_of-hit_board-none k token dame (c ∷ cs) h =
    ground (arith, card_of-hit_board-none k token dame cs, token_id-sub_hp_of c dame)

abbrev after_hit : ℕ → Option BoardCardModel → Option BoardCardModel
after_hit dame none = none
after_hit dame (some c) = if leb (get_hp_of c.card) dame then none else some (sub_hp_of c dame)

-- The board after a hit, card by card: the card hit loses the damage or leaves the board, and
-- every other card stays as it was.
pub card_of-hit_board :
    (k token dame : ℕ) (board : List BoardCardModel)
    → IsAlive board
    → IsDistinct board
    → card_of k (hit_board token dame board)
      ≡ (if k == token then after_hit dame (card_of k board) else card_of k board)
unfolding hit_board
card_of-hit_board k token dame [] a d = ground arith
card_of-hit_board k token dame (c ∷ cs) a d = ground (
  arith,
  card_of-hit_board k token dame cs a.1 d.1,
  card_of-hit_board-none k token dame cs,
  get_hp_of-sub_hp_of c dame,
  token_id-sub_hp_of c dame,
)

pub hit_board-IsDistinct :
    (token dame : ℕ) (board : List BoardCardModel)
    → IsDistinct board
    → IsDistinct (hit_board token dame board)
unfolding hit_board
hit_board-IsDistinct token dame [] d = tt
hit_board-IsDistinct token dame (c ∷ cs) d = ground (
  arith,
  hit_board-IsDistinct token dame cs d.1,
  card_of-hit_board-none c.card.token_id token dame cs,
  token_id-sub_hp_of c dame,
)

pub length-hit_board :
    (token dame : ℕ) (board : List BoardCardModel)
    → length (hit_board token dame board) ≤ length board
unfolding hit_board
length-hit_board token dame [] = omega arith
length-hit_board token dame (c ∷ cs) = ground (arith, length-hit_board token dame cs)

hp_or_zero-after_hit :
    (dame : ℕ) (o : Option BoardCardModel) → hp_or_zero (after_hit dame o) ≤ hp_or_zero o
hp_or_zero-after_hit dame none = omega arith
hp_or_zero-after_hit dame (some c) = ground (arith, get_hp_of-sub_hp_of c dame)

-- No card gains health points by a hit, whichever card it was aimed at.
pub hp_left-hit_board :
    (k token dame : ℕ) (board : List BoardCardModel)
    → IsAlive board
    → IsDistinct board
    → hp_left k (hit_board token dame board) ≤ hp_left k board
hp_left-hit_board k token dame board a d =
    rw (card_of-hit_board k token dame board a d) (elim (Bool-cases (k == token)) [
      | inl e ↦ rw e (hp_or_zero-after_hit dame (card_of k board))
      | inr e ↦ rw e (omega arith)
    ])

card_of-find :
    (p : BoardCardModel → Bool) (board : List BoardCardModel) {t : BoardCardModel}
    → IsDistinct board
    → find p board ≡ some t
    → card_of t.card.token_id board ≡ some t
card_of-find p [] d e = cc
card_of-find p (c ∷ cs) {t} d e = ground (arith, card_of-find p cs {t = t} d.1)

card_of-get_elem? :
    (board : List BoardCardModel) (i : ℕ) {t : BoardCardModel}
    → IsDistinct board
    → get_elem? board i ≡ some t
    → card_of t.card.token_id board ≡ some t
card_of-get_elem? [] i d e = cc
card_of-get_elem? (c ∷ cs) zero d e = ground arith
card_of-get_elem? (c ∷ cs) (suc i) d e = ground (arith, card_of-get_elem? cs i d.1 e)

-- The target of an attack is a card of the board.
pub get_target_on_board :
    (r : Random) (k position : ℕ) (type : CardSkillType) (board : List BoardCardModel)
    {t : BoardCardModel}
    → IsDistinct board
    → (get_target r k position type board).0 ≡ some t
    → card_of t.card.token_id board ≡ some t
unfolding get_target
get_target_on_board r k position melee board d e = card_of-find _ board d e
get_target_on_board r k position magic board d e = card_of-find _ board d e
get_target_on_board r k position ranged board d e =
    elim (Option-cases (at_position (get_diagonal position) board)) [
      | inl n ↦ card_of-find (λ c. c.position == position) board d (rw n at e)
      | inr (c, f) ↦
          card_of-find (λ c. c.position == get_diagonal position) board d (f ∙ (rw f at e))
    ]
get_target_on_board r k position random board d e = card_of-get_elem? board _ d e
get_target_on_board r k position hp board d e = cc
get_target_on_board r k position armor board d e = cc
