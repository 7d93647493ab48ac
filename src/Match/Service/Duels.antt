-- ===== src/Match/Service/Duels.antt =====
-- Every stored match stays a duel, whatever is called and however the call ends.
mod Methods
pub use Methods.{AllDuels, create_match-AllDuels}
use zombiies_api.Common.{
  ℕ, suc, ◌≡◌, ◌≢◌, inl, inr, sym, Bool, true, false, Option, none, some, List, [], ◌∷◌, All,
  All-find_one, All-update_one, All-create, ok, arith, Option-cases, Result-cases, lift, or_throw,
  type_error, ok-injective, Action, find_by_id,
}
use zombiies_api.Common.Ensures.{Ensures, Ensures-bind, Ensures-lift}
use zombiies_api.Deck.Model.{DeckCardModel}
use zombiies_api.Match.Model.{Match, PlayerStatusModel, MatchEvent}
use zombiies_api.Match.Turn.{
  confirm_statuses, put_statuses, deny_statuses, validate_end_turn, get_winner_status, opponent_of,
  initial_status,
}
use zombiies_api.Match.Turn.Roles.{
  IsDuel, put_statuses-IsDuel, deny_statuses-IsDuel, confirm_statuses-IsDuel,
  end_turn_statuses-IsDuel, initial_status-IsDuel,
}
use zombiies_api.Match.Service.{
  MatchEnv, World, is_playing, waiting_player, find_by_id_and_update, end_match, surrender,
  confirm_turn, deny_card_of, put_to_board, end_or_pass, end_turn, player_status, publish, shuffled,
  start_match, other, create_match, match_timeout, create_match_timeout_job,
  add_timeout_job_to_match,
}
use zombiies_api.Match.Service.Duels.Methods.{
  put_to_board-AllDuels, deny_card_of-AllDuels, confirm_turn-AllDuels, end_turn-AllDuels,
  surrender-AllDuels, match_timeout-AllDuels,
}

-- A call of the match service, by a user, by the room service or by the queue.
pub data Call : Type 0 where
  creates : (player1 player2 : ℕ) → player1 ≢ player2 → Call
  puts : ℕ → ℕ → ℕ → Call
  denies : ℕ → ℕ → Call
  confirms ends surrenders times_out : ℕ → Call

module _ {S Q E : Type 0} (env : MatchEnv S Q E) where
  -- The state after a call, with or without an exception.
  unfoldable pub after_call : Call → World S Q E → World S Q E
  after_call (creates p1 p2 ne) w = (create_match env p1 p2 w).1
  after_call (puts user token_id position) w = (put_to_board env user token_id position w).1
  after_call (denies user token_id) w = (deny_card_of env user token_id w).1
  after_call (confirms user) w = (confirm_turn env user w).1
  after_call (ends user) w = (end_turn env user w).1
  after_call (surrenders user) w = (surrender env user w).1
  after_call (times_out id) w = (match_timeout env id w).1

  unfoldable pub after_calls : List Call → World S Q E → World S Q E
  unfolding after_call
  after_calls [] w = w
  after_calls (c ∷ cs) w = after_calls cs (after_call c w)

  pub after_call-AllDuels :
      (c : Call) (w : World S Q E) → AllDuels env w → AllDuels env (after_call c w)
  unfolding after_call
  after_call-AllDuels (creates p1 p2 ne) w = create_match-AllDuels env p1 p2 w ne
  after_call-AllDuels (puts user token_id position) w =
      put_to_board-AllDuels env user token_id position w
  after_call-AllDuels (denies user token_id) w = deny_card_of-AllDuels env user token_id w
  after_call-AllDuels (confirms user) w = confirm_turn-AllDuels env user w
  after_call-AllDuels (ends user) w = end_turn-AllDuels env user w
  after_call-AllDuels (surrenders user) w = surrender-AllDuels env user w
  after_call-AllDuels (times_out id) w = match_timeout-AllDuels env id w

  -- Whatever calls the service gets, in whatever order and with whatever exceptions, each stored match
  -- stays a duel, provided that the matches created are between different players.
  after_calls-AllDuels :
      (cs : List Call) (w : World S Q E) → AllDuels env w → AllDuels env (after_calls cs w)
  unfolding after_calls
  after_calls-AllDuels [] w h = h
  after_calls-AllDuels (c ∷ cs) w h =
      after_calls-AllDuels cs (after_call c w) (after_call-AllDuels c w h)
