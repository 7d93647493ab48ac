-- ===== src/Match/Combat.antt =====
-- src/module/match/match.service.ts: the attacks of a confirmed turn, from `castSkill` down, and
-- the two nested loops of `confirmTurn`. Random draws are numbered, so each routine that draws
-- takes the number of draws made so far and returns the new number.
pub mod Boards
pub mod Damage
pub mod Worn
pub mod Rounds
use zombiies_api.Common.{
  ℕ, suc, ◌+◌, ◌-◌, ◌*◌, ◌/◌, Bool, true, false, not, Option, none, some, List, [], ◌∷◌, ◌++◌, map,
  ltb, leb, ◌==◌, if◌then◌else◌, length, find, filter, get_elem?, Random,
}
use zombiies_api.Card.Model.{
  CardSkillType, melee, ranged, magic, random, hp, armor, CardSkillModel, CardTokenModel,
  skill_type_eq,
}
use zombiies_api.Match.Model.{BoardCardModel, AttackEventModel}

-- `skills.find((s) => s.type === type)`.
abbrev pub find_skill : CardSkillType → List CardSkillModel → Option CardSkillModel
find_skill t = find (λ s. skill_type_eq s.type t)

-- `?.value || 0`.
abbrev pub value_or_zero : Option CardSkillModel → ℕ
value_or_zero none = 0
value_or_zero (some s) = s.value

unfoldable pub get_hp_of : CardTokenModel → ℕ
get_hp_of card = value_or_zero (find_skill hp card.skills)

-- `s.value - dame > 0 ? s.value - dame : 0` is the truncated difference.
abbrev pub sub_skill : ℕ → CardSkillModel → CardSkillModel
sub_skill dame s = if skill_type_eq s.type hp then record s { value = s.value - dame } else s

unfoldable pub sub_hp_of : BoardCardModel → ℕ → BoardCardModel
sub_hp_of c dame = record c {
  card = record (c.card) { skills = map (sub_skill dame) c.card.skills };
}

unfoldable pub get_diagonal : ℕ → ℕ
get_diagonal position = if position == 2 then 3 else (if position == 3 then 2 else 1)

abbrev pub at_position : ℕ → List BoardCardModel → Option BoardCardModel
at_position p = find (λ c. c.position == p)

abbrev or_else : Option BoardCardModel → Option BoardCardModel → Option BoardCardModel
or_else (some c) d = some c
or_else none d = d

-- Only `RANDOM` draws.
unfoldable pub get_target :
    Random → ℕ → ℕ → CardSkillType → List BoardCardModel → Option BoardCardModel × ℕ
get_target r k position melee board = (at_position 1 board, k)
get_target r k position magic board = (at_position position board, k)
get_target r k position ranged board =
    (or_else (at_position (get_diagonal position) board) (at_position position board), k)
get_target r k position random board = (get_elem? board (r.random_index k (length board)), suc k)
get_target r k position hp board = (none, k)
get_target r k position armor board = (none, k)

unfoldable pub can_attack : ℕ → CardSkillType → Bool
can_attack position melee = position == 1
can_attack position ranged = not (position == 1)
can_attack position random = not (position == 1)
can_attack position magic = not (position == 1)
can_attack position hp = false
can_attack position armor = false

-- `randomInt(Math.floor(value / 2), Math.ceil(value * 1.5) + 1)`; only `RANDOM` draws.
damage_of : Random → ℕ → CardSkillType → ℕ → ℕ × ℕ
damage_of r k random value = (r.random_int k (value / 2) ((3 * value + 1) / 2 + 1), suc k)
damage_of r k melee value = (value, k)
damage_of r k ranged value = (value, k)
damage_of r k magic value = (value, k)
damage_of r k hp value = (value, k)
damage_of r k armor value = (value, k)

unfoldable pub get_dame : Random → ℕ → CardSkillModel → ℕ × ℕ
unfolding damage_of
get_dame r k skill = damage_of r k skill.type skill.value

-- The board after a hit of `dame` on the card with the target's token.
unfoldable pub hit_board : ℕ → ℕ → List BoardCardModel → List BoardCardModel
hit_board token dame board =
    filter (λ c. ltb 0 (get_hp_of c.card))
      (map (λ c. if c.card.token_id == token then sub_hp_of c dame else c) board)

abbrev pub attack_event :
    BoardCardModel → CardSkillModel → List BoardCardModel → BoardCardModel → ℕ → AttackEventModel
attack_event card skill board target dame = record {
  token_id = card.card.token_id;
  to_position = target.position;
  skill = skill;
  damage = dame;
  destroy = leb (get_hp_of target.card) dame;
  target_on_board = hit_board target.card.token_id dame board;
}

unfoldable pub cast_skill :
    Random → ℕ → BoardCardModel → CardSkillModel → List BoardCardModel → Option AttackEventModel × ℕ
cast_skill r k card skill board =
    let (target, k₁) = get_target r k card.position skill.type board in
    let (dame, k₂) = get_dame r k₁ skill in
    if can_attack card.position skill.type
    then elim target [
      | none ↦ (none, k₁)
      | some t ↦ (some (attack_event card skill board t dame), k₂)
    ]
    else (none, k)

-- The variables of the loops in `confirmTurn`.
pub record Round : Type 0 where
  pub draws : ℕ
  pub attacks : List AttackEventModel
  pub target_on_board : List BoardCardModel

abbrev record_attack : Option AttackEventModel × ℕ → Round → Round
record_attack (none, k) r = record r { draws = k }
record_attack (some e, k) r = record {
  draws = k;
  attacks = r.attacks ++ e ∷ [];
  target_on_board = e.target_on_board;
}

-- The inner loop breaks when an attack has emptied the board.
abbrev breaks : Option AttackEventModel × ℕ → Bool
breaks (none, k) = false
breaks (some e, k) = length e.target_on_board == 0

unfoldable pub cast_skills : Random → BoardCardModel → List CardSkillModel → Round → Round
cast_skills r card [] round = round
cast_skills r card (skill ∷ skills) round =
    let cast = cast_skill r round.draws card skill round.target_on_board in
    let next = record_attack cast round in
    let rest = cast_skills r card skills next in if breaks cast then next else rest

-- The outer loop goes on to the next card whatever the inner one did.
unfoldable pub cast_cards : Random → List BoardCardModel → Round → Round
cast_cards r [] round = round
cast_cards r (card ∷ cards) round = cast_cards r cards (cast_skills r card card.card.skills round)
