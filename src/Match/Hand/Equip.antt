-- ===== src/Match/Hand/Equip.antt =====
-- The cards of a board after `putToBoard`: monsters keep one card to a position, and an equipment
-- does not take the place of the card that it is put on.
use zombiies_api.Common.{
  ℕ, ◌↔◌, ◌+◌, ◌≤◌, ◌≡◌, ◌≢◌, refl, inl, inr, true, Option, none, some, List, [], ◌∷◌, ◌++◌, map,
  ◌==◌, find, find_holds, ap, ◌∙◌, is_ok, ok, arith, Bool-cases,
}
use zombiies_api.Card.Model.{
  CardTokenModel, monster, equipment, CardSkillModel, CardSkillType, skill_type_eq,
  skill_type_eq_sound,
}
use zombiies_api.Match.Model.{BoardCardModel, PlayerStatusModel}
use zombiies_api.Match.Combat.{at_position, find_skill, value_or_zero}
use zombiies_api.Match.Hand.{
  Lodash, has_token, token_of, put_status, add_value, combine_collection_skills,
  put_card_to_position, armor_to_hp,
}
use zombiies_api.Match.Hand.Put.{Fits, CanPut, put_status-IsPut, put_status-result, put_status_iff}

-- One card to a position, and every position is 1, 2 or 3.
abbrev pub IsPlaced : List BoardCardModel → Type 0
IsPlaced [] = Unit
IsPlaced (c ∷ cs) =
    (1 ≤ c.position) × (c.position ≤ 3) × (at_position c.position cs ≡ none) × IsPlaced cs

at_position-append_none :
    (p : ℕ) (board : List BoardCardModel) (c : BoardCardModel)
    → at_position p board ≡ none
    → p ≢ c.position
    → at_position p (board ++ c ∷ []) ≡ none
at_position-append_none p [] c h ne = ground (arith, ne)
at_position-append_none p (x ∷ xs) c h ne = ground (arith, at_position-append_none p xs c)

IsPlaced-append :
    (board : List BoardCardModel) (c : BoardCardModel)
    → IsPlaced board
    → 1 ≤ c.position
    → c.position ≤ 3
    → at_position c.position board ≡ none
    → IsPlaced (board ++ c ∷ [])
IsPlaced-append [] c h l u n = (l, u, refl, tt)
IsPlaced-append (x ∷ xs) c h l u n = (
  h.0,
  h.1,
  ground (arith, h.2, at_position-append_none x.position xs c),
  IsPlaced-append xs c h.3 l u (ground (arith, n)),
)

at_position-append_some :
    (p : ℕ) (board : List BoardCardModel) (c : BoardCardModel) {b : BoardCardModel}
    → at_position p board ≡ some b
    → at_position p (board ++ c ∷ []) ≡ some b
at_position-append_some p [] c h = cc
at_position-append_some p (x ∷ xs) c {b} h = ground (arith, at_position-append_some p xs c {b = b})

not-IsPlaced-append :
    (board : List BoardCardModel) (c : BoardCardModel) {b : BoardCardModel}
    → at_position c.position board ≡ some b
    → ¬ IsPlaced (board ++ c ∷ [])
not-IsPlaced-append [] c h k = cc
not-IsPlaced-append (x ∷ xs) c {b} h k = elim (Bool-cases (x.position == c.position)) [
  | inl e ↦ not_last xs k.2 e
  | inr e ↦ not-IsPlaced-append xs c {b = b} (ground (arith, h, e)) k.3
]
  where
    not_last :
        (ys : List BoardCardModel)
        → at_position x.position (ys ++ c ∷ []) ≡ none
        → (x.position == c.position) ≡ true
        → ⊥
    not_last [] n e = ground arith
    not_last (y ∷ ys) n e = elim (Bool-cases (y.position == x.position)) [
      | inl f ↦ ground (arith, n, f)
      | inr f ↦ not_last ys (ground (arith, n, f)) e
    ]

monster-empty :
    (card : CardTokenModel) (o : Option BoardCardModel)
    → Fits card o
    → card.type ≡ monster
    → o ≡ none
monster-empty card none f m = refl
monster-empty card (some c) f m = absurd (ground (arith, f, m))

equipment-taken :
    (card : CardTokenModel) (o : Option BoardCardModel)
    → Fits card o
    → card.type ≡ equipment
    → (c : BoardCardModel) × (o ≡ some c) × (c.equipment ≡ none)
equipment-taken card none f m = absurd (ground (arith, f, m))
equipment-taken card (some c) f m = (c, refl, f.1)

module _ (lodash : Lodash) where
  -- A monster that is put keeps one card to a position.
  put_status-IsPlaced :
      (s s' : PlayerStatusModel) (token_id position : ℕ) (card : CardTokenModel)
      → token_of (find (has_token token_id) s.on_hand) ≡ some card
      → card.type ≡ monster
      → put_status lodash s token_id position ≡ ok s'
      → IsPlaced s.on_board
      → IsPlaced s'.on_board
  put_status-IsPlaced s s' token_id position card f m h placed =
      let (card', c, d) = put_status-IsPut lodash s s' token_id position h in
      let same : card' ≡ card = cc (c.in_hand, f) in
      let (b, e, q, _) = d.added in
      let empty : at_position b.position s.on_board ≡ none =
        rw q (monster-empty card' (at_position position s.on_board) c.fits (rw same m)) in
      rw e (
        IsPlaced-append s.on_board b placed (omega (arith, c.valid.0, q))
          (omega (arith, c.valid.1, q)) empty)

  -- The status after an equipment is put on the card `x`: one more card at the end of the board.
  put_status-equipped :
      (s s' : PlayerStatusModel) (token_id position : ℕ) (card : CardTokenModel)
      (x : BoardCardModel)
      → CanPut s token_id position card
      → card.type ≡ equipment
      → at_position position s.on_board ≡ some x
      → put_status lodash s token_id position ≡ ok s'
      → (b : BoardCardModel) × (s'.on_board ≡ s.on_board ++ b ∷ [])
        × (b.position ≡ position)
        × (b.equipment ≡ some card)
  unfolding put_card_to_position
  put_status-equipped s s' token_id position card x c m a h =
      let b : BoardCardModel = record x {
        card = record (x.card) {
          skills = combine_collection_skills lodash x.card.skills (map armor_to_hp card.skills);
        };
        equipment = some card;
      } in
      let placed : put_card_to_position lodash card position (at_position position s.on_board)
          ≡ ok b =
        rw (a, m) refl in
      let left = put_status-result lodash s token_id position card b c placed in
      (
        b,
        ground (arith, left, h),
        ground (
          arith,
          find_holds (λ (y : BoardCardModel). y.position == position) s.on_board {a = x} a,
        ),
        refl,
      )

  -- An equipment that is put leaves the card that it was put on where it was: a second card, which
  -- has the equipment, is added at the end of the board in the same position. The rules that look
  -- the position up still see the first card, without the equipment, and a further card is accepted
  -- there exactly when it is in the hand, an equipment, and covered by the crystals that are left,
  -- as if nothing had been put.
  pub put_status-equipment_shadowed :
      (s s' : PlayerStatusModel) (token_id position : ℕ) (card : CardTokenModel)
      → token_of (find (has_token token_id) s.on_hand) ≡ some card
      → card.type ≡ equipment
      → put_status lodash s token_id position ≡ ok s'
      → (c : BoardCardModel) × (b : BoardCardModel) × (c.equipment ≡ none)
        × (at_position position s.on_board ≡ some c)
        × (s'.on_board ≡ s.on_board ++ b ∷ [])
        × (b.position ≡ position)
        × (b.equipment ≡ some card)
        × (at_position position s'.on_board ≡ some c)
        × (¬ IsPlaced s'.on_board)
        × ((second : ℕ)
            → (is_ok (put_status lodash s' second position) ≡ true) ↔ (
                (other : CardTokenModel) × (token_of (find (has_token second) s'.on_hand)
                  ≡ some other)
                × (other.type ≡ equipment)
                × (other.cost ≤ s'.crystal)))
  put_status-equipment_shadowed s s' token_id position card f m h =
      let (card', c, d) = put_status-IsPut lodash s s' token_id position h in
      let same : card' ≡ card = cc (c.in_hand, f) in
      let (x, a, n) = equipment-taken card' (at_position position s.on_board) c.fits (rw same m) in
      let (b, e, q, k) = put_status-equipped s s' token_id position card' x c (rw same m) a h in
      let still : at_position position s'.on_board ≡ some x =
        rw e (at_position-append_some position s.on_board b {b = x} a) in
      (
        x,
        b,
        n,
        a,
        e,
        q,
        k ∙ ap some same,
        still,
        rw e (not-IsPlaced-append s.on_board b {b = x} (rw q a)),
        λ second. (
          (λ accepted.
              let (other, k) = (put_status_iff lodash s' second position).0 accepted in
              (other, k.in_hand, (rw still at (k.fits)).0, k.affordable)),
          λ (other, held, equips, covered). (put_status_iff lodash s' second position).1 (
            other,
            record {
              in_turn = d.same_turn.0 ∙ c.in_turn;
              not_confirmed = d.same_turn.1 ∙ c.not_confirmed;
              valid = c.valid;
              in_hand = held;
              affordable = covered;
              fits = rw still (equips, n);
            },
          ),
        ),
      )

-- The skill of a type in the combined list.
abbrev joined : Option CardSkillModel → Option CardSkillModel → Option CardSkillModel
joined none b = b
joined (some s) b = some (add_value s b)

add_value-type : (s : CardSkillModel) (o : Option CardSkillModel) → (add_value s o).type ≡ s.type
add_value-type s none = refl
add_value-type s (some f) = refl

joined-value :
    (a b : Option CardSkillModel) → value_or_zero (joined a b) ≡ value_or_zero a + value_or_zero b
joined-value none b = omega arith
joined-value (some s) none = omega arith
joined-value (some s) (some f) = refl

find_skill-add_value :
    (t : CardSkillType) (xs ys : List CardSkillModel)
    → find_skill t (map (λ s. add_value s (find_skill s.type ys)) xs ++ ys)
      ≡ joined (find_skill t xs) (find_skill t ys)
find_skill-add_value t [] ys = refl
find_skill-add_value t (x ∷ xs) ys =
    rw (add_value-type x (find_skill x.type ys)) (elim (Bool-cases (skill_type_eq x.type t)) [
      | inl e ↦ rw e (rw (skill_type_eq_sound x.type t e) refl)
      | inr e ↦ rw e (find_skill-add_value t xs ys)
    ])

module _ (lodash : Lodash) where
  -- Combining the skills of a card and its equipment adds the values of each type, a type that only
  -- one of them has counting as 0 in the other.
  combine_collection_skills-adds :
      (t : CardSkillType) (xs ys : List CardSkillModel)
      → value_or_zero (find_skill t (combine_collection_skills lodash xs ys))
        ≡ value_or_zero (find_skill t xs) + value_or_zero (find_skill t ys)
  unfolding combine_collection_skills
  combine_collection_skills-adds t xs ys =
      rw (lodash.find_skill-union_by_type, find_skill-add_value t xs ys)
        (joined-value (find_skill t xs) (find_skill t ys))
