-- ===== src/Match/Combat/Worn.antt =====
-- How the attacks of `confirmTurn` of src/module/match/match.service.ts wear a board down.
use zombiies_api.Common.{
  ℕ, ◌+◌, ◌≤◌, inl, inr, List, [], ◌∷◌, length, length-append, Random, arith, Bool-cases,
  Option-cases,
}
use zombiies_api.Card.Model.{CardSkillModel}
use zombiies_api.Match.Model.{BoardCardModel}
use zombiies_api.Match.Combat.{
  cast_skill, get_target, can_attack, Round, record_attack, breaks, cast_skills, cast_cards,
  hit_board,
}
use zombiies_api.Match.Combat.Boards.{
  IsAlive, IsDistinct, hp_left, hit_board-IsAlive, hit_board-IsDistinct, hp_left-hit_board,
  length-hit_board,
}

pub record IsWorn (before after : List BoardCardModel) : Type 0 where
  pub alive : IsAlive after
  pub distinct : IsDistinct after
  pub fewer : length after ≤ length before
  pub worn : (j : ℕ) → hp_left j after ≤ hp_left j before

IsWorn-refl : (board : List BoardCardModel) → IsAlive board → IsDistinct board → IsWorn board board
IsWorn-refl board a d = record {
  alive = a;
  distinct = d;
  fewer = omega arith;
  worn = λ j. omega arith;
}

IsWorn-trans : {a b c : List BoardCardModel} → IsWorn a b → IsWorn b c → IsWorn a c
IsWorn-trans v w = record {
  alive = w.alive;
  distinct = w.distinct;
  fewer = omega (arith, v.fewer, w.fewer);
  worn = λ j. omega (arith, v.worn j, w.worn j);
}

hit_board-IsWorn :
    (token dame : ℕ) (board : List BoardCardModel)
    → IsAlive board
    → IsDistinct board
    → IsWorn board (hit_board token dame board)
hit_board-IsWorn token dame board a d = record {
  alive = hit_board-IsAlive token dame board;
  distinct = hit_board-IsDistinct token dame board d;
  fewer = length-hit_board token dame board;
  worn = λ j. hp_left-hit_board j token dame board a d;
}

-- A cast either records nothing, or one attack event that carries the new board.
cast_skill-record :
    (r : Random) (card : BoardCardModel) (skill : CardSkillModel) (round : Round)
    → IsAlive round.target_on_board
    → IsDistinct round.target_on_board
    → let next = record_attack (cast_skill r round.draws card skill round.target_on_board) round in
      IsWorn round.target_on_board next.target_on_board
      × (length next.attacks ≤ length round.attacks + 1)
unfolding cast_skill
cast_skill-record r card skill round a d =
    let board = round.target_on_board in
    let same = IsWorn-refl board a d in
    elim (Bool-cases (can_attack card.position skill.type)) [
      | inr barred ↦ rw (barred, cast_skill) (same, omega arith)
      | inl allowed ↦
          elim (Option-cases (get_target r round.draws card.position skill.type board).0) [
            | inl n ↦ rw (allowed, n) (same, omega arith)
            | inr (t, f) ↦
                rw (allowed, f)
                  (hit_board-IsWorn _ _ board a d, omega (arith, length-append {0} round.attacks))
          ]
    ]

cast_skills-IsWorn :
    (r : Random) (card : BoardCardModel) (skills : List CardSkillModel) (round : Round)
    → IsAlive round.target_on_board
    → IsDistinct round.target_on_board
    → let end = cast_skills r card skills round in
      IsWorn round.target_on_board end.target_on_board
      × (length end.attacks ≤ length round.attacks + length skills)
unfolding cast_skills
cast_skills-IsWorn r card [] round a d = (IsWorn-refl _ a d, omega arith)
cast_skills-IsWorn r card (skill ∷ skills) round a d =
    let cast = cast_skill r round.draws card skill round.target_on_board in
    let next = record_attack cast round in
    let one = cast_skill-record r card skill round a d in
    let more = cast_skills-IsWorn r card skills next one.0.alive one.0.distinct in
    elim (Bool-cases (breaks cast)) [
      | inl stop ↦ rw stop (one.0, omega (arith, one.1))
      | inr goes ↦ rw goes (IsWorn-trans one.0 more.0, omega (arith, one.1, more.1))
    ]

-- The number of skills on a board.
abbrev pub skill_count : List BoardCardModel → ℕ
skill_count [] = 0
skill_count (c ∷ cs) = length c.card.skills + skill_count cs

-- A turn of attacks leaves a board of distinct cards that are all alive, no longer than before, on
-- which no card has gained health points, and it records at most one attack for each skill.
pub cast_cards-IsWorn :
    (r : Random) (cards : List BoardCardModel) (round : Round)
    → IsAlive round.target_on_board
    → IsDistinct round.target_on_board
    → let end = cast_cards r cards round in
      IsWorn round.target_on_board end.target_on_board
      × (length end.attacks ≤ length round.attacks + skill_count cards)
unfolding cast_cards
cast_cards-IsWorn r [] round a d = (IsWorn-refl _ a d, omega arith)
cast_cards-IsWorn r (card ∷ cards) round a d =
    let next = cast_skills r card card.card.skills round in
    let one = cast_skills-IsWorn r card card.card.skills round a d in
    let more = cast_cards-IsWorn r cards next one.0.alive one.0.distinct in
    (IsWorn-trans one.0 more.0, omega (arith, one.1, more.1))

-- The two loops with no `break`.
