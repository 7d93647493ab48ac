-- ===== src/Match/Combat/Rounds.antt =====
-- The loops of `confirmTurn`: what a whole turn of attacks does to the board it is aimed at.
use zombiies_api.Common.{
  ℕ, ◌≡◌, refl, sym, subst, ◌∙◌, inl, inr, ◌⊎◌, true, Option, none, some, List, [], ◌∷◌, ◌==◌,
  length, Random, arith, Bool-cases,
}
use zombiies_api.Card.Model.{CardSkillModel, melee, ranged, magic, random, hp, armor, CardSkillType}
use zombiies_api.Match.Model.{BoardCardModel, AttackEventModel}
use zombiies_api.Match.Combat.{
  cast_skill, get_target, Round, record_attack, breaks, cast_skills, cast_cards,
}

-- The target board as a turn leaves it, against the board at an earlier point.
unfoldable pub cast_skills_all : Random → BoardCardModel → List CardSkillModel → Round → Round
cast_skills_all r card [] round = round
cast_skills_all r card (skill ∷ skills) round =
    cast_skills_all r card skills
      (record_attack (cast_skill r round.draws card skill round.target_on_board) round)

unfoldable pub cast_cards_all : Random → List BoardCardModel → Round → Round
cast_cards_all r [] round = round
cast_cards_all r (card ∷ cards) round =
    cast_cards_all r cards (cast_skills_all r card card.card.skills round)

-- Two rounds that record the same, and differ at most in the draws once nothing is left to hit.
abbrev IsSame : Round → Round → Type 0
IsSame a b =
    (a ≡ b) ⊎ ((a.attacks ≡ b.attacks) × (a.target_on_board ≡ []) × (b.target_on_board ≡ []))

get_target-nil :
    (r : Random) (k position : ℕ) (type : CardSkillType)
    → (get_target r k position type []).0 ≡ none
unfolding get_target
get_target-nil r k position melee = refl
get_target-nil r k position ranged = refl
get_target-nil r k position magic = refl
get_target-nil r k position random = refl
get_target-nil r k position hp = refl
get_target-nil r k position armor = refl

cast_skill-nil :
    (r : Random) (card : BoardCardModel) (skill : CardSkillModel) (round : Round)
    → round.target_on_board ≡ []
    → let next = record_attack (cast_skill r round.draws card skill round.target_on_board) round in
      (next.attacks ≡ round.attacks) × (next.target_on_board ≡ [])
unfolding cast_skill
cast_skill-nil r card skill round e =
    ground (arith, get_target-nil r round.draws card.position skill.type)

cast_skills_all-nil :
    (r : Random) (card : BoardCardModel) (skills : List CardSkillModel) (round : Round)
    → round.target_on_board ≡ []
    → let end = cast_skills_all r card skills round in
      (end.attacks ≡ round.attacks) × (end.target_on_board ≡ [])
unfolding cast_skills_all
cast_skills_all-nil r card [] round e = (refl, e)
cast_skills_all-nil r card (skill ∷ skills) round e =
    let one = cast_skill-nil r card skill round e in
    let next = record_attack (cast_skill r round.draws card skill round.target_on_board) round in
    let more = cast_skills_all-nil r card skills next one.1 in (more.0 ∙ one.0, more.1)

length-zero : (xs : List BoardCardModel) → (length xs == 0) ≡ true → xs ≡ []
length-zero [] e = refl
length-zero (x ∷ xs) e = absurd (ground (arith, e))

breaks-nil :
    (cast : Option AttackEventModel × ℕ) (round : Round)
    → breaks cast ≡ true
    → (record_attack cast round).target_on_board ≡ []
breaks-nil (none, k) round e = cc
breaks-nil (some x, k) round e = length-zero x.target_on_board e

cast_skills-IsSame :
    (r : Random) (card : BoardCardModel) (skills : List CardSkillModel) (round : Round)
    → IsSame (cast_skills r card skills round) (cast_skills_all r card skills round)
unfolding cast_skills cast_skills_all
cast_skills-IsSame r card [] round = inl refl
cast_skills-IsSame r card (skill ∷ skills) round =
    let cast = cast_skill r round.draws card skill round.target_on_board in
    let next = record_attack cast round in
    elim (Bool-cases (breaks cast)) [
      | inl stop ↦
          let nothing = breaks-nil cast round stop in
          let skipped = cast_skills_all-nil r card skills next nothing in
          rw stop (inr (sym skipped.0, nothing, skipped.1))
      | inr goes ↦ rw goes (cast_skills-IsSame r card skills next)
    ]

cast_skills-nil :
    (r : Random) (card : BoardCardModel) (skills : List CardSkillModel) (round : Round)
    → round.target_on_board ≡ []
    → let end = cast_skills r card skills round in
      (end.attacks ≡ round.attacks) × (end.target_on_board ≡ [])
unfolding cast_skills
cast_skills-nil r card [] round e = (refl, e)
cast_skills-nil r card (skill ∷ skills) round e =
    let one = cast_skill-nil r card skill round e in
    let cast = cast_skill r round.draws card skill round.target_on_board in
    let next = record_attack cast round in
    let more = cast_skills-nil r card skills next one.1 in
    elim (Bool-cases (breaks cast)) [
      | inl stop ↦ rw stop one
      | inr goes ↦ rw goes (more.0 ∙ one.0, more.1)
    ]

cast_cards-nil :
    (r : Random) (cards : List BoardCardModel) (round : Round)
    → round.target_on_board ≡ []
    → let end = cast_cards r cards round in
      (end.attacks ≡ round.attacks) × (end.target_on_board ≡ [])
unfolding cast_cards
cast_cards-nil r [] round e = (refl, e)
cast_cards-nil r (card ∷ cards) round e =
    let one = cast_skills-nil r card card.card.skills round e in
    let more = cast_cards-nil r cards (cast_skills r card card.card.skills round) one.1 in
    (more.0 ∙ one.0, more.1)

cast_cards_all-nil :
    (r : Random) (cards : List BoardCardModel) (round : Round)
    → round.target_on_board ≡ []
    → let end = cast_cards_all r cards round in
      (end.attacks ≡ round.attacks) × (end.target_on_board ≡ [])
unfolding cast_cards_all
cast_cards_all-nil r [] round e = (refl, e)
cast_cards_all-nil r (card ∷ cards) round e =
    let one = cast_skills_all-nil r card card.card.skills round e in
    let more = cast_cards_all-nil r cards (cast_skills_all r card card.card.skills round) one.1 in
    (more.0 ∙ one.0, more.1)

-- The inner `break` is a shortcut: without it a turn records the same attacks and leaves the same
-- board.
pub cast_cards-eq-cast_cards_all :
    (r : Random) (cards : List BoardCardModel) (round : Round)
    → ((cast_cards r cards round).attacks ≡ (cast_cards_all r cards round).attacks)
      × ((cast_cards r cards round).target_on_board
          ≡ (cast_cards_all r cards round).target_on_board)
unfolding cast_cards cast_cards_all
cast_cards-eq-cast_cards_all r [] round = (refl, refl)
cast_cards-eq-cast_cards_all r (card ∷ cards) round =
    let a = cast_skills r card card.card.skills round in
    let b = cast_skills_all r card card.card.skills round in
    elim (cast_skills-IsSame r card card.card.skills round) [
      | inl same ↦
          subst
            (λ (x : Round).
              ((cast_cards r cards a).attacks ≡ (cast_cards_all r cards x).attacks)
              × ((cast_cards r cards a).target_on_board
                  ≡ (cast_cards_all r cards x).target_on_board))
            same (cast_cards-eq-cast_cards_all r cards a)
      | inr (e, na, nb) ↦
          let left = cast_cards-nil r cards a na in
          let right = cast_cards_all-nil r cards b nb in
          (left.0 ∙ e ∙ sym right.0, left.1 ∙ sym right.1)
    ]
