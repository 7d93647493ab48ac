-- ===== src/Match/Hand.antt =====
-- src/module/match/match.service.ts: how a card goes from the hand to the board (`putToBoard` and
-- its helpers) or is given up for crystals (`denyCard`), with the checks that come first.
pub mod Put
pub mod Equip
pub mod Deny
use Prim.Native.String.{String}
use zombiies_api.Common.{
  ℕ, ◌+◌, ◌-◌, ◌≡◌, Bool, true, false, not, ◌&&◌, ◌||◌, Option, none, some, List, [], ◌∷◌, ◌++◌,
  map, ltb, ◌==◌, if◌then◌else◌, is_some, find, filter, Result, ok, err, Error, bad_request,
  forbidden, type_error, throw_if, or_throw, ◌>>=◌, ◌>>◌,
}
use zombiies_api.Card.Model.{
  CardSkillType, melee, ranged, magic, random, hp, armor, CardSkillModel, CardTokenModel, CardType,
  monster, equipment, is_monster, is_equipment, skill_type_eq,
}
use zombiies_api.Deck.Model.{DeckCardModel}
use zombiies_api.Match.Model.{BoardCardModel, PlayerStatusModel}
use zombiies_api.Match.Combat.{find_skill}

-- lodash: `unionBy` of one list by the skill's type keeps the first skill of each type.
pub record Lodash : Type 0 where
  pub union_by_type : List CardSkillModel → List CardSkillModel
  pub find_skill-union_by_type :
      (t : CardSkillType) (skills : List CardSkillModel)
      → find_skill t (union_by_type skills) ≡ find_skill t skills

unfoldable pub validate_in_turn_action : Bool → Bool → Result (Unit {0})
validate_in_turn_action in_turn confirm_turn = do
  throw_if (not in_turn) (forbidden "You are not in turn")
  throw_if confirm_turn (forbidden "You are confirmed turn")

unfoldable pub validate_position : ℕ → Result (Unit {0})
validate_position position =
    throw_if (not (position == 1 || position == 2 || position == 3))
      (bad_request "Position must in 1, 2, 3")

unfoldable pub card_in_board_position : ℕ → List BoardCardModel → Result (Option BoardCardModel)
unfolding validate_position
card_in_board_position position on_board = do
  validate_position position
  ok (find (λ c. c.position == position) on_board)

-- `c.tokenId === tokenId`, which is false of a card whose token is missing.
abbrev pub has_token : ℕ → DeckCardModel → Bool
has_token token_id c = elim c.token [ none ↦ false | some t ↦ t.token_id == token_id ]

abbrev pub token_of : Option DeckCardModel → Option CardTokenModel
token_of none = none
token_of (some c) = c.token

unfoldable pub find_token_or_fail : ℕ → List DeckCardModel → Result CardTokenModel
find_token_or_fail token_id tokens =
    or_throw (token_of (find (has_token token_id) tokens)) (bad_request "Not found token with id")

abbrev have_equipment : Option BoardCardModel → Bool
have_equipment none = false
have_equipment (some c) = is_some c.equipment

unfoldable pub validate_can_put_card :
    ℕ → CardTokenModel → Option BoardCardModel → Result (Unit {0})
validate_can_put_card current_crystal card_to_put card_in_board = do
  throw_if (ltb current_crystal card_to_put.cost) (forbidden "Not enough crystal to put card")
  throw_if (not (is_some card_in_board) && is_equipment card_to_put.type)
      (bad_request "Can not put equipment to empty position")
  throw_if (is_some card_in_board && is_monster card_to_put.type)
      (bad_request "This position already placed a card")
  throw_if (have_equipment card_in_board && is_equipment card_to_put.type)
      (bad_request "This card already have equipment")

abbrev pub add_value : CardSkillModel → Option CardSkillModel → CardSkillModel
add_value s none = s
add_value s (some found) = record s { value = s.value + found.value }

-- The map of `ARMOR` to `HP`.
abbrev pub armor_to_hp : CardSkillModel → CardSkillModel
armor_to_hp s = if skill_type_eq s.type armor then record s { type = hp } else s

module _ (lodash : Lodash) where
  unfoldable pub combine_collection_skills :
      List CardSkillModel → List CardSkillModel → List CardSkillModel
  combine_collection_skills collection1 collection2 =
      lodash.union_by_type
        (map (λ s. add_value s (find_skill s.type collection2)) collection1 ++ collection2)

  -- Without a card in the position the equipment branch reads `skills` of `undefined`.
  unfoldable pub put_card_to_position :
      CardTokenModel → ℕ → Option BoardCardModel → Result BoardCardModel
  unfolding combine_collection_skills
  put_card_to_position card_to_put position card_in_position =
      if is_equipment card_to_put.type
      then elim card_in_position [
        | none ↦ err type_error
        | some c ↦ ok (record c {
          card = record (c.card) {
            skills = combine_collection_skills c.card.skills (map armor_to_hp card_to_put.skills);
          };
          equipment = some card_to_put;
        })
      ]
      else ok (record { card = card_to_put; equipment = none; position = position })

  -- The player's status after `putToBoard`, up to the update of the match.
  unfoldable pub put_status : PlayerStatusModel → ℕ → ℕ → Result PlayerStatusModel
  unfolding validate_in_turn_action card_in_board_position find_token_or_fail validate_can_put_card
  put_status s token_id position = do
    validate_in_turn_action s.in_turn s.confirm_turn
    card_in_position ← card_in_board_position position s.on_board
    card_to_put ← find_token_or_fail token_id s.on_hand
    validate_can_put_card s.crystal card_to_put card_in_position
    placed ← put_card_to_position card_to_put position card_in_position
    ok (record s {
      on_hand = filter (λ c. not (has_token token_id c)) s.on_hand;
      on_board = s.on_board ++ placed ∷ [];
      crystal = s.crystal - card_to_put.cost;
    })

-- The player's status after `denyCard`; the filter is the one of the source.
unfoldable pub deny_status : PlayerStatusModel → ℕ → Result PlayerStatusModel
unfolding validate_in_turn_action find_token_or_fail
deny_status s token_id = do
  validate_in_turn_action s.in_turn s.confirm_turn
  card ← find_token_or_fail token_id s.on_hand
  ok (record s {
    on_hand = filter (has_token token_id) s.on_hand;
    crystal = s.crystal + (if is_monster card.type then 2 else 1);
  })
