-- ===== src/Api/Requests.antt =====
-- Requests with the tokens of their senders, over the accounts and the game, with the sign-ups and
-- log-ins and the jobs of the queues.
use zombiies_api.Common.{
  ℕ, ◌≡◌, refl, ap, ◌∙◌, List, [], ◌∷◌, ◌++◌, filter, Result, ok, err, Error, and_then-lift, true,
}
use zombiies_api.User.Model.{User}
use zombiies_api.User.Service as UserService
use zombiies_api.Auth.Service.{AuthEnv, authenticate}
use zombiies_api.Auth.Accounts
use zombiies_api.Auth.Accounts.{docs_of}
use zombiies_api.Auth.Accounts.Distinct.{Unique, is_admin, after_calls-Unique}
use zombiies_api.Match.Service as MatchService
use zombiies_api.Match.Service.{put_to_board, deny_card_of}
use zombiies_api.Match.Service.Duels
use zombiies_api.Room.Service as RoomService
use zombiies_api.Room.Service.{RoomEnv, in_match, wait_timeout}
use zombiies_api.Room.Service.Calls
use zombiies_api.Room.Service.Calls.{
  ServerOk, joins, readies, stops, cleans, times_out, plays, after_calls-ServerOk,
}
use zombiies_api.Api.{
  find_match, stop_find_match, ready, online, put_card_to_board, deny_card, confirm_turn, end_turn,
  surrender,
}

-- What a client asks for.
pub data Mutation : Type 0 where
  finds_match stops_finding is_ready goes_offline confirms_turn ends_turn gives_up : Mutation
  puts_card : (token_id position : ℕ) → Mutation
  denies_card : (token_id : ℕ) → Mutation

-- A request with its token at a time, a sign-up or log-in, or a job of a queue that is due.
pub data Request : Type 0 where
  asks : (token now : ℕ) → Mutation → Request
  accounts : Accounts.Call → Request
  room_job match_job : ℕ → Request

pub record Server (U C S Q M J O : Type 0) : Type 0 where
  pub account_world : UserService.World U C
  pub game : RoomService.World S Q M J O

module _ {U C S Q M J O : Type 0} (auth : AuthEnv U C) (env : RoomEnv S Q M J O) where
  abbrev pub answer :
      Mutation → Result User → RoomService.World S Q M J O → RoomService.World S Q M J O
  answer finds_match user w = (find_match env user w).1
  answer stops_finding user w = (stop_find_match env user w).1
  answer is_ready user w = (ready env user w).1
  answer goes_offline user w = (online env user w).1
  answer confirms_turn user w = (confirm_turn env user w).1
  answer ends_turn user w = (end_turn env user w).1
  answer gives_up user w = (surrender env user w).1
  answer (puts_card token_id position) user w = (put_card_to_board env user token_id position w).1
  answer (denies_card token_id) user w = (deny_card env user token_id w).1

  unfoldable pub serve : Request → Server U C S Q M J O → Server U C S Q M J O
  serve (asks token now m) s = record s {
    game = answer m (authenticate auth token now s.account_world).0 s.game;
  }
  serve (accounts c) s = record s { account_world = Accounts.after_call auth c s.account_world }
  serve (room_job id) s = record s { game = (wait_timeout env id s.game).1 }
  serve (match_job id) s = record s {
    game = Calls.after_call env (plays (Duels.times_out id)) s.game;
  }

  unfoldable pub serve_all : List Request → Server U C S Q M J O → Server U C S Q M J O
  unfolding serve
  serve_all [] s = s
  serve_all (r ∷ rs) s = serve_all rs (serve r s)

  -- The calls of the services that the requests may make: a user's own ones, for a request whose token
  -- authenticates a user when it comes, and those of the queues.
  abbrev pub own_call : Mutation → ℕ → Calls.Call
  own_call finds_match user = joins user
  own_call stops_finding user = stops user
  own_call is_ready user = readies user
  own_call goes_offline user = cleans user
  own_call confirms_turn user = plays (Duels.confirms user)
  own_call ends_turn user = plays (Duels.ends user)
  own_call gives_up user = plays (Duels.surrenders user)
  own_call (puts_card token_id position) user = plays (Duels.puts user token_id position)
  own_call (denies_card token_id) user = plays (Duels.denies user token_id)

  abbrev pub calls_by : Mutation → Result User → List Calls.Call
  calls_by m (err x) = []
  calls_by m (ok user) = own_call m user.id ∷ []

  abbrev pub account_calls : List Request → List Accounts.Call
  account_calls [] = []
  account_calls (asks token now m ∷ rs) = account_calls rs
  account_calls (accounts c ∷ rs) = c ∷ account_calls rs
  account_calls (room_job id ∷ rs) = account_calls rs
  account_calls (match_job id ∷ rs) = account_calls rs

  abbrev pub game_calls : List Request → UserService.World U C → List Calls.Call
  game_calls [] w = []
  game_calls (asks token now m ∷ rs) w =
      calls_by m (authenticate auth token now w).0 ++ game_calls rs w
  game_calls (accounts c ∷ rs) w = game_calls rs (Accounts.after_call auth c w)
  game_calls (room_job id ∷ rs) w = times_out id ∷ game_calls rs w
  game_calls (match_job id ∷ rs) w = plays (Duels.times_out id) ∷ game_calls rs w

  answer-own_call :
      (m : Mutation) (user : User) (w : RoomService.World S Q M J O)
      → answer m (ok user) w ≡ Calls.after_call env (own_call m user.id) w
  unfolding Calls.after_call Duels.after_call
  answer-own_call finds_match user w = refl
  answer-own_call stops_finding user w = refl
  answer-own_call is_ready user w = refl
  answer-own_call goes_offline user w = refl
  answer-own_call confirms_turn user w =
      and_then-lift (in_match env (MatchService.confirm_turn env.match_service user.id) w) true
  answer-own_call ends_turn user w =
      and_then-lift (in_match env (MatchService.end_turn env.match_service user.id) w) true
  answer-own_call gives_up user w =
      and_then-lift (in_match env (MatchService.surrender env.match_service user.id) w) true
  answer-own_call (puts_card token_id position) user w =
      and_then-lift (in_match env (put_to_board env.match_service user.id token_id position) w) true
  answer-own_call (denies_card token_id) user w =
      and_then-lift (in_match env (deny_card_of env.match_service user.id token_id) w) true

  answer-refused :
      (m : Mutation) (x : Error) (w : RoomService.World S Q M J O) → answer m (err x) w ≡ w
  answer-refused finds_match x w = refl
  answer-refused stops_finding x w = refl
  answer-refused is_ready x w = refl
  answer-refused goes_offline x w = refl
  answer-refused confirms_turn x w = refl
  answer-refused ends_turn x w = refl
  answer-refused gives_up x w = refl
  answer-refused (puts_card token_id position) x w = refl
  answer-refused (denies_card token_id) x w = refl

  answer-calls :
      (m : Mutation) (r : Result User) (w : RoomService.World S Q M J O) (cs : List Calls.Call)
      → Calls.after_calls env cs (answer m r w) ≡ Calls.after_calls env (calls_by m r ++ cs) w
  unfolding Calls.after_calls
  answer-calls m (err x) w cs = ap (Calls.after_calls env cs) (answer-refused m x w)
  answer-calls m (ok user) w cs = ap (Calls.after_calls env cs) (answer-own_call m user w)

  -- The requests do what the calls of the services do that they may make, and nothing else: the
  -- game after them is the game after the calls of the authenticated users, each for that user
  -- alone, and of the queues, in the same order, and the accounts are those after the sign-ups and
  -- log-ins.
  pub serve_all-calls :
      (rs : List Request) (s : Server U C S Q M J O)
      → ((serve_all rs s).game ≡ Calls.after_calls env (game_calls rs s.account_world) s.game)
        × ((serve_all rs s).account_world
            ≡ Accounts.after_calls auth (account_calls rs) s.account_world)
  unfolding serve_all Calls.after_calls Accounts.after_calls
  serve_all-calls [] s = (refl, refl)
  serve_all-calls (accounts c ∷ rs) s = serve_all-calls rs (serve (accounts c) s)
  serve_all-calls (match_job id ∷ rs) s = serve_all-calls rs (serve (match_job id) s)
  serve_all-calls (room_job id ∷ rs) s = serve_all-calls rs (serve (room_job id) s)
  serve_all-calls (asks token now m ∷ rs) s =
      let rest = serve_all-calls rs (serve (asks token now m) s) in
      (
        rest.0
            ∙ answer-calls m (authenticate auth token now s.account_world).0 s.game
                (game_calls rs s.account_world),
        rest.1,
      )

  -- Whatever requests come, with whatever tokens, and whatever exceptions end them: the rooms and
  -- the matches stay as `ServerOk` says, no two users share a username or an email, and no request
  -- makes an administrator.
  pub serve_all-ServerOk :
      (rs : List Request) (s : Server U C S Q M J O)
      → ServerOk env s.game
      → Unique auth (docs_of auth s.account_world)
      → ServerOk env (serve_all rs s).game
        × Unique auth (docs_of auth (serve_all rs s).account_world)
        × (filter (is_admin auth) (docs_of auth (serve_all rs s).account_world)
            ≡ filter (is_admin auth) (docs_of auth s.account_world))
  serve_all-ServerOk rs s h u =
      let same = serve_all-calls rs s in
      let kept = after_calls-Unique auth (account_calls rs) s.account_world u in
      (
        rw (same.0) (after_calls-ServerOk env (game_calls rs s.account_world) s.game h),
        rw (same.1) (kept.0),
        rw (same.1) (kept.1),
      )
