-- ===== src/Match/Hand/Put.antt =====
-- When `putToBoard` accepts a card, and what it then does to the player's status.
use zombiies_api.Common.{
  ℕ, ◌+◌, ◌-◌, ◌≤◌, ◌≡◌, ◌≢◌, ◌↔◌, refl, inl, inr, true, false, not, Option, none, some, List, [],
  ◌∷◌, ◌++◌, ◌==◌, find, filter, find_holds, ok, is_ok, is_ok-cases, subst, arith, Bool-cases,
  Option-cases,
}
use zombiies_api.Card.Model.{CardTokenModel, monster, equipment}
use zombiies_api.Deck.Model.{DeckCardModel}
use zombiies_api.Match.Model.{BoardCardModel, PlayerStatusModel}
use zombiies_api.Match.Combat.{at_position}
use zombiies_api.Match.Hand.{Lodash, has_token, token_of, put_card_to_position, put_status}

-- The position can take the card: an empty one a monster, a card without equipment an equipment.
abbrev pub Fits : CardTokenModel → Option BoardCardModel → Type 0
Fits card none = card.type ≡ monster
Fits card (some c) = (card.type ≡ equipment) × (c.equipment ≡ none)

pub record CanPut (s : PlayerStatusModel) (token_id position : ℕ) (card : CardTokenModel)
    : Type 0 where
  pub in_turn : s.in_turn ≡ true
  pub not_confirmed : s.confirm_turn ≡ false
  pub valid : (1 ≤ position) × (position ≤ 3)
  pub in_hand : token_of (find (has_token token_id) s.on_hand) ≡ some card
  pub affordable : card.cost ≤ s.crystal
  pub fits : Fits card (at_position position s.on_board)

module _ (lodash : Lodash) where
  put_status-ok :
      (s : PlayerStatusModel) (token_id position : ℕ) (card : CardTokenModel)
      → CanPut s token_id position card
      → is_ok (put_status lodash s token_id position) ≡ true
  unfolding put_status put_card_to_position
  put_status-ok s token_id position card c = elim (Option-cases (at_position position s.on_board)) [
    | inl n ↦ ground (arith, n)
    | inr (b, f) ↦ ground (arith, f)
  ]

  put_status-CanPut :
      (s : PlayerStatusModel) (token_id position : ℕ)
      → is_ok (put_status lodash s token_id position) ≡ true
      → (card : CardTokenModel) × CanPut s token_id position card
  unfolding put_status put_card_to_position
  put_status-CanPut s token_id position h =
      elim (Option-cases (token_of (find (has_token token_id) s.on_hand))) [
        | inl n ↦ absurd (ground (arith, n))
        | inr (card, f) ↦ (
          card,
          elim (Option-cases (at_position position s.on_board)) [
            | inl n ↦ record {
              in_turn = ground (arith, n, f);
              not_confirmed = ground (arith, n, f);
              valid = ground (arith, n, f);
              in_hand = f;
              affordable = ground (arith, n, f);
              fits = rw n (ground (arith, n, f));
            }
            | inr (b, e) ↦ record {
              in_turn = ground (arith, e, f);
              not_confirmed = ground (arith, e, f);
              valid = ground (arith, e, f);
              in_hand = f;
              affordable = ground (arith, e, f);
              fits = rw e (ground (arith, e, f));
            }
          ],
        )
      ]

  -- `putToBoard` accepts a card exactly when the player is in turn and has not confirmed, the
  -- position is 1, 2 or 3, the card is in the hand, its cost is covered, and the position takes it:
  -- a monster goes to an empty position and an equipment to a card that has none.
  pub put_status_iff :
      (s : PlayerStatusModel) (token_id position : ℕ)
      → (is_ok (put_status lodash s token_id position) ≡ true)
        ↔ ((card : CardTokenModel) × CanPut s token_id position card)
  put_status_iff s token_id position =
      (put_status-CanPut s token_id position, λ c. put_status-ok s token_id position c.0 c.1)

has_token_ne : (k t : ℕ) (c : DeckCardModel) → k ≢ t → has_token t c ≡ true → has_token k c ≡ false
has_token_ne k t c ne h = ground arith

find-filter_ne :
    (k t : ℕ) (cs : List DeckCardModel)
    → k ≢ t
    → find (has_token k) (filter (λ c. not (has_token t c)) cs) ≡ find (has_token k) cs
find-filter_ne k t [] ne = refl
find-filter_ne k t (c ∷ cs) ne = elim (Bool-cases (has_token t c)) [
  | inl h ↦ ground (arith, h, has_token_ne k t c, find-filter_ne k t cs)
  | inr h ↦ ground (arith, h, find-filter_ne k t cs)
]

find-filter_self :
    (t : ℕ) (cs : List DeckCardModel)
    → find (has_token t) (filter (λ c. not (has_token t c)) cs) ≡ none
find-filter_self t [] = refl
find-filter_self t (c ∷ cs) = elim (Bool-cases (has_token t c)) [
  | inl h ↦ ground (arith, h, find-filter_self t cs)
  | inr h ↦ ground (arith, h, find-filter_self t cs)
]

-- What an accepted card changes.
pub record IsPut (s s' : PlayerStatusModel) (token_id position : ℕ) (card : CardTokenModel)
    : Type 0 where
  pub same_player : s'.player_id ≡ s.player_id
  pub same_turn : (s'.in_turn ≡ s.in_turn) × (s'.confirm_turn ≡ s.confirm_turn)
  pub paid : s'.crystal + card.cost ≡ s.crystal
  pub gone : find (has_token token_id) s'.on_hand ≡ none
  pub kept : (k : ℕ) → k ≢ token_id → find (has_token k) s'.on_hand ≡ find (has_token k) s.on_hand
  pub added :
      (placed : BoardCardModel) × (s'.on_board ≡ s.on_board ++ placed ∷ [])
      × (placed.position ≡ position)
      × (card.type ≡ monster → placed.card ≡ card)

module _ (lodash : Lodash) where
  put_card_to_position-position :
      (card : CardTokenModel) (position : ℕ) (board : List BoardCardModel) {placed : BoardCardModel}
      → put_card_to_position lodash card position (at_position position board) ≡ ok placed
      → (placed.position ≡ position) × (card.type ≡ monster → placed.card ≡ card)
  unfolding put_card_to_position
  put_card_to_position-position card position board {placed} h =
      elim (Option-cases (at_position position board)) [
        | inl n ↦ ground (arith, n)
        | inr (c, f) ↦
            ground (
              arith,
              f,
              find_holds (λ (b : BoardCardModel). b.position == position) board {a = c} f,
            )
      ]

  -- The status that an accepted card leaves.
  abbrev put_result : PlayerStatusModel → ℕ → CardTokenModel → BoardCardModel → PlayerStatusModel
  put_result s token_id card placed = record s {
    on_hand = filter (λ c. not (has_token token_id c)) s.on_hand;
    on_board = s.on_board ++ placed ∷ [];
    crystal = s.crystal - card.cost;
  }

  pub put_status-result :
      (s : PlayerStatusModel) (token_id position : ℕ) (card : CardTokenModel)
      (placed : BoardCardModel)
      → CanPut s token_id position card
      → put_card_to_position lodash card position (at_position position s.on_board) ≡ ok placed
      → put_status lodash s token_id position ≡ ok (put_result s token_id card placed)
  unfolding put_status
  put_status-result s token_id position card placed c p =
      elim (Option-cases (at_position position s.on_board)) [
        | inl n ↦ ground (arith, n)
        | inr (b, f) ↦ ground (arith, f)
      ]

  put_status-placed :
      (s : PlayerStatusModel) (token_id position : ℕ) (card : CardTokenModel)
      → CanPut s token_id position card
      → (placed : BoardCardModel) × (put_card_to_position lodash card position
            (at_position position s.on_board)
          ≡ ok placed)
  unfolding put_card_to_position
  put_status-placed s token_id position card c =
      is_ok-cases _ (elim (Option-cases (at_position position s.on_board)) [
        | inl n ↦ ground (arith, n)
        | inr (b, f) ↦ ground (arith, f)
      ])

  -- When `putToBoard` succeeds the card could be put, and it is paid for with exactly its cost,
  -- leaves the hand and nothing else of the hand does, and one card is added to the end of the board
  -- in the position asked for: the card itself, if it is a monster.
  pub put_status-IsPut :
      (s s' : PlayerStatusModel) (token_id position : ℕ)
      → put_status lodash s token_id position ≡ ok s'
      → (card : CardTokenModel) × CanPut s token_id position card
        × IsPut s s' token_id position card
  put_status-IsPut s s' token_id position h =
      let (card, c) = (put_status_iff lodash s token_id position).0 (rw h) in
      let (placed, p) = put_status-placed s token_id position card c in
      let same : put_result s token_id card placed ≡ s' =
        cc (put_status-result s token_id position card placed c p) in
      let at = put_card_to_position-position card position s.on_board p in
      let done : IsPut s (put_result s token_id card placed) token_id position card = record {
        same_player = refl;
        same_turn = (refl, refl);
        paid = omega (arith, c.affordable);
        gone = find-filter_self token_id s.on_hand;
        kept = λ k ne. find-filter_ne k token_id s.on_hand ne;
        added = (placed, refl, at.0, at.1);
      } in
      (card, c, subst (λ (x : PlayerStatusModel). IsPut s x token_id position card) same done)
