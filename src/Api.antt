-- ===== src/Api.antt =====
-- The game as its clients reach it: the resolvers src/module/room/room.resolver.ts,
-- src/module/match/match.resolver.ts and the end of the subscription of
-- src/module/user/user.resolver.ts, behind src/module/auth/guard/jwt-auth.guard.ts. `requests` of
-- several clients come one after another.
pub mod Requests
pub mod Decks
pub mod Subscriptions
pub mod Tokens
pub mod Notifications
mod Tests
use zombiies_api.Common.{
  ℕ, Bool, true, Option, none, some, Result, ok, err, unauthorized, Action, and_then, lift,
}
use zombiies_api.Common.Async.{◌>>=◌}
use zombiies_api.User.Model.{User}
use zombiies_api.Match.Service as MatchService
use zombiies_api.Match.Service.{put_to_board, deny_card_of}
use zombiies_api.Room.Model.{Room}
use zombiies_api.Room.Service as RoomService
use zombiies_api.Room.Service.{RoomEnv, World, join_or_create_room, clean_created_rooms, in_match}

-- `@UseGuards(JwtAuthGuard)` with `@CurrentUser()`: no method runs without a user.
abbrev pub guarded : {S A : Type 0} → Result User → (User → Action S A) → Action S A
guarded (err x) method = lift (err x)
guarded (ok user) method = method user

module _ {S Q M J O : Type 0} (env : RoomEnv S Q M J O) (current_user : Result User) where
  open env use {match_service}

  abbrev Answer : Type 0 → Type 0
  Answer = Action (World S Q M J O)

  abbrev pub find_match : Answer (Option Room)
  find_match = guarded current_user (λ user. join_or_create_room env user.id)

  abbrev pub stop_find_match : Answer Bool
  stop_find_match = guarded current_user (λ user. RoomService.stop_find_match env user.id)

  abbrev pub ready : Answer Bool
  ready = guarded current_user (λ user. RoomService.ready env user.id)

  -- `online`, when the client closes the subscription.
  abbrev pub online : Answer (Unit {0})
  online = guarded current_user (λ user. clean_created_rooms env user.id)

  abbrev answer_true : {A : Type 0} → Answer A → Answer Bool
  answer_true m = do _ ← m; lift (ok true)

  abbrev pub put_card_to_board : ℕ → ℕ → Answer Bool
  put_card_to_board token_id position =
      guarded current_user
        (λ user. answer_true (in_match env (put_to_board match_service user.id token_id position)))

  abbrev pub deny_card : ℕ → Answer Bool
  deny_card token_id =
      guarded current_user
        (λ user. answer_true (in_match env (deny_card_of match_service user.id token_id)))

  abbrev pub confirm_turn : Answer Bool
  confirm_turn =
      guarded current_user
        (λ user. answer_true (in_match env (MatchService.confirm_turn match_service user.id)))

  abbrev pub end_turn : Answer Bool
  end_turn =
      guarded current_user
        (λ user. answer_true (in_match env (MatchService.end_turn match_service user.id)))

  abbrev pub surrender : Answer Bool
  surrender =
      guarded current_user
        (λ user. answer_true (in_match env (MatchService.surrender match_service user.id)))
