-- ===== src/Match/Tests.antt =====
-- A concrete match, on which the theorems of Match are applied.
use zombiies_api.Common.{
  ℕ, ◌≤◌, ◌++◌, find, ◌≡◌, ◌↔◌, refl, true, none, some, [], ◌∷◌, length, All, ok, is_ok, arith,
}
use zombiies_api.Common.Memory.{least_draws}
use zombiies_api.Card.Model.{melee, hp, CardTokenModel, monster, equipment}
use zombiies_api.Match.Model.{BoardCardModel, PlayerStatusModel, AttackEventModel}
use zombiies_api.Match.Fixture.{
  skill, card, placed, biter, mage, shield, enemy, attackers, lodash, in_hand, alice,
}
use zombiies_api.Match.Combat.{
  get_hp_of, sub_hp_of, at_position, get_target, can_attack, get_dame, hit_board, cast_skill, Round,
  cast_skills, cast_cards,
}
use zombiies_api.Match.Combat.Damage.{IsHit, cast_skill-IsHit}
use zombiies_api.Match.Combat.Boards.{IsAlive, IsDistinct}
use zombiies_api.Match.Combat.Rounds.{cast_cards_all, cast_cards-eq-cast_cards_all}
use zombiies_api.Match.Hand.{has_token, token_of, put_status, deny_status, put_card_to_position}
use zombiies_api.Match.Hand.Put.{CanPut, IsPut, put_status_iff, put_status-IsPut}
use zombiies_api.Match.Hand.Equip.{IsPlaced, put_status-equipment_shadowed}
use zombiies_api.Match.Hand.Deny.{CanDeny, deny_status_keeps}

abbrev bite : AttackEventModel
bite = record {
  token_id = 11;
  to_position = 1;
  skill = skill melee 3;
  damage = 3;
  destroy = true;
  target_on_board = placed (card 22 monster 2 (skill hp 6 ∷ [])) 2 ∷ [];
}

bite_kills : cast_skill least_draws 0 (placed biter 1) (skill melee 3) enemy ≡ (some bite, 0)
unfolding cast_skill get_target can_attack get_dame hit_board get_hp_of sub_hp_of
bite_kills = refl

enemy-IsAlive : IsAlive enemy
unfolding get_hp_of
enemy-IsAlive = omega arith

enemy-IsDistinct : IsDistinct enemy
enemy-IsDistinct = (refl, (refl, tt))

cast_skill-IsHit_example :
    (t : BoardCardModel) × IsHit (placed biter 1) (skill melee 3) enemy bite t
cast_skill-IsHit_example =
    cast_skill-IsHit least_draws 0 0 (placed biter 1) (skill melee 3) enemy bite enemy-IsAlive
      enemy-IsDistinct bite_kills

abbrev start : Round
start = record { draws = 0; attacks = []; target_on_board = enemy }

-- The biter kills its target; the mage hits the other card with magic and at random.
whole_turn : length (cast_cards least_draws attackers start).attacks ≡ 3
unfolding cast_cards cast_skills cast_skill get_target can_attack get_dame hit_board get_hp_of
    sub_hp_of
whole_turn = refl

cast_cards-eq-cast_cards_all_example :
    ((cast_cards least_draws attackers start).attacks
      ≡ (cast_cards_all least_draws attackers start).attacks)
    × ((cast_cards least_draws attackers start).target_on_board
        ≡ (cast_cards_all least_draws attackers start).target_on_board)
cast_cards-eq-cast_cards_all_example = cast_cards-eq-cast_cards_all least_draws attackers start

put_status_iff_example :
    (is_ok (put_status lodash alice 14 3) ≡ true) ↔ ((c : CardTokenModel) × CanPut alice 14 3 c)
put_status_iff_example = put_status_iff lodash alice 14 3

abbrev after_monster : PlayerStatusModel
after_monster = record alice {
  on_hand = in_hand shield ∷ [];
  on_board = placed biter 1 ∷ placed mage 2 ∷ placed (card 14 monster 2 (skill hp 2 ∷ [])) 3 ∷ [];
  crystal = 3;
}

monster_put : put_status lodash alice 14 3 ≡ ok after_monster
unfolding put_status put_card_to_position
monster_put = refl

put_status-IsPut_example :
    (c : CardTokenModel) × CanPut alice 14 3 c × IsPut alice after_monster 14 3 c
put_status-IsPut_example = put_status-IsPut lodash alice after_monster 14 3 monster_put

abbrev after_equipment : PlayerStatusModel
after_equipment = record alice {
  on_hand = in_hand (card 14 monster 2 (skill hp 2 ∷ [])) ∷ [];
  on_board =
      placed biter 1
      ∷ placed mage 2
      ∷ record (placed biter 1) {
        card = record biter { skills = skill hp 11 ∷ skill melee 3 ∷ [] };
        equipment = some shield;
      }
      ∷ [];
  crystal = 4;
}

equipment_put : put_status lodash alice 13 1 ≡ ok after_equipment
unfolding put_status put_card_to_position
equipment_put = refl

put_status-equipment_shadowed_example :
    (c : BoardCardModel) × (b : BoardCardModel) × (c.equipment ≡ none)
    × (at_position 1 alice.on_board ≡ some c)
    × (after_equipment.on_board ≡ alice.on_board ++ b ∷ [])
    × (b.position ≡ 1)
    × (b.equipment ≡ some shield)
    × (at_position 1 after_equipment.on_board ≡ some c)
    × (¬ IsPlaced after_equipment.on_board)
    × ((second : ℕ)
        → (is_ok (put_status lodash after_equipment second 1) ≡ true) ↔ (
            (other : CardTokenModel) × (token_of (find (has_token second) after_equipment.on_hand)
              ≡ some other)
            × (other.type ≡ equipment)
            × (other.cost ≤ after_equipment.crystal)))
put_status-equipment_shadowed_example =
    put_status-equipment_shadowed lodash alice after_equipment 13 1 shield refl refl equipment_put

deny_status_keeps_example :
    (s' : PlayerStatusModel) × (deny_status alice 14 ≡ ok s')
    × All (λ c. has_token 14 c ≡ true) s'.on_hand
    × CanDeny s' 14 (card 14 monster 2 (skill hp 2 ∷ []))
    × (s'.crystal ≡ 7)
    × (s'.on_board ≡ alice.on_board)
deny_status_keeps_example =
    deny_status_keeps alice 14 (card 14 monster 2 (skill hp 2 ∷ []))
      (record { in_turn = refl; not_confirmed = refl; in_hand = refl })
