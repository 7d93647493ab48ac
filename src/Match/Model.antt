-- ===== src/Match/Model.antt =====
-- src/module/match: the board, the players and the events (model/*.model.ts,
-- schema/match.schema.ts).
use zombiies_api.Common.{ℕ, List, Option, Bool}
use zombiies_api.Card.Model.{CardSkillModel, CardTokenModel}
use zombiies_api.Deck.Model.{DeckCardModel}

-- `BoardCardModel extends CardTokenModel`.
pub record BoardCardModel : Type 0 where
  pub card : CardTokenModel
  pub equipment : Option CardTokenModel
  pub position : ℕ

pub record PlayerStatusModel : Type 0 where
  pub player_id : ℕ
  pub on_board : List BoardCardModel
  pub on_hand : List DeckCardModel
  pub crystal : ℕ
  pub in_turn : Bool
  pub confirm_turn : Bool

pub record Match : Type 0 where
  pub id : ℕ
  pub player_statuses : List PlayerStatusModel
  pub timeout_job_id : Option ℕ
  pub winner_id : Option ℕ

pub record AttackEventModel : Type 0 where
  pub token_id : ℕ
  pub to_position : ℕ
  pub skill : CardSkillModel
  pub damage : ℕ
  pub destroy : Bool
  pub target_on_board : List BoardCardModel

pub data PrepareTurnEventType : Type 0 where
  put_card deny_card : PrepareTurnEventType

-- The published messages. A match that the update did not find is `null` in the message.
pub data MatchEvent : Type 0 where
  match_started : Option Match → MatchEvent
  match_ended : Option Match → MatchEvent
  reward_received : ℕ → Option CardTokenModel → MatchEvent
  prepare_turn_event : PrepareTurnEventType → ℕ → ℕ → Option ℕ → Option Match → MatchEvent
  confirm_turn_event : ℕ → List AttackEventModel → Option Match → MatchEvent
  end_turn_event : ℕ → Option Match → MatchEvent
