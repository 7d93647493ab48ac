-- ===== src/Room/Service.antt =====
-- src/module/room/room.service.ts and consumer/room.consumer.ts: the methods of the room service
-- over the collection of rooms, its queue, and the match service that it is injected with.
pub mod Pairs
pub mod Calls
pub mod Ready
use Prim.Native.String.{String}
use zombiies_api.Common.{
  ℕ, ◌≡◌, Bool, true, false, ◌&&◌, ◌||◌, Option, none, some, List, [], ◌∷◌, ◌++◌, ◌==◌,
  if◌then◌else◌, bad_request, not_found, type_error, ok, or_throw, throw_if, Action, lift, gets,
  modify, Collection, find_by_id, update_one, delete_one, JobQueue, is_some, not,
}
use zombiies_api.Common.Async.{◌>>=◌, ◌>>◌}
use zombiies_api.Match.Model.{Match}
use zombiies_api.Match.Service
use zombiies_api.Match.Service.{MatchEnv, get_playing_match, create_match}
use zombiies_api.Room.Model.{Room, RoomEvent, wait_ready, all_ready, ready_timeout}

pub record RoomEnv (S Q M J O : Type 0) : Type 0 where
  pub model : Collection S Room
  pub id_lem : (r : Room) → model.id r ≡ r.id
  pub queue : JobQueue Q ℕ
  pub match_service : MatchEnv M J O

pub record World (S Q M J O : Type 0) : Type 0 where
  pub rooms : S
  pub jobs : Q
  pub match_world : Service.World M J O
  pub events : List RoomEvent

-- `player2?.toString() === user._id.toString()`.
abbrev pub is_second : ℕ → Room → Bool
is_second user r = elim r.player2 [ none ↦ false | some p ↦ p == user ]

abbrev pub is_first : ℕ → Room → Bool
is_first user r = r.player1 == user

-- The filter of `getJoinedRoom`.
abbrev pub is_joined : ℕ → Room → Bool
is_joined user r = is_first user r || is_second user r

-- The filter of `getWaitingRoom`.
abbrev pub is_waiting : Room → Bool
is_waiting r = not (is_some r.player2)

-- A flag that is absent counts as false.
abbrev pub truthy : Option Bool → Bool
truthy none = false
truthy (some b) = b

abbrev pub set_ready : Bool → Option Bool → Option Bool
set_ready true flag = some true
set_ready false flag = flag

-- The flags of `updateParams`.
abbrev pub with_ready : ℕ → Room → Room → Room
with_ready user read r = record r {
  player1_ready = set_ready (is_first user read) read.player1_ready;
  player2_ready = set_ready (is_second user read) read.player2_ready;
}

abbrev pub both_ready : Room → Bool
both_ready r = truthy r.player1_ready && truthy r.player2_ready

module _ {S Q M J O : Type 0} (env : RoomEnv S Q M J O) where
  open env use {model, queue, match_service}

  abbrev pub RoomAction : Type 0 → Type 0
  RoomAction = Action (World S Q M J O)

  abbrev pub publish : RoomEvent → RoomAction (Unit {0})
  publish e = modify (λ w. record w { events = w.events ++ e ∷ [] })

  -- A method of the match service.
  abbrev pub in_match : {A : Type 0} → Action (Service.World M J O) A → RoomAction A
  in_match m w = let (r, v) = m w.match_world in (r, record w { match_world = v })

  abbrev pub update : (S → S) → RoomAction (Unit {0})
  update f = modify (λ w. record w { rooms = f w.rooms })

  abbrev pub get_joined_room : ℕ → RoomAction (Option Room)
  get_joined_room user = gets (λ w. model.find_one (is_joined user) w.rooms)

  abbrev pub get_waiting_room : RoomAction (Option Room)
  get_waiting_room = gets (λ w. model.find_one is_waiting w.rooms)

  abbrev pub find_room : ℕ → RoomAction (Option Room)
  find_room id = gets (λ w. find_by_id model id w.rooms)

  abbrev pub remove_room : ℕ → RoomAction (Unit {0})
  remove_room id = update (delete_one model id)

  unfoldable pub clean_created_rooms : ℕ → RoomAction (Unit {0})
  clean_created_rooms user = update (model.delete_many (is_first user))

  abbrev pub stop_in : Option Room → RoomAction Bool
  stop_in none = lift (ok false)
  stop_in (some room) =
      if is_some room.player2 then lift (ok false) else remove_room room.id >> lift (ok true)

  unfoldable pub stop_find_match : ℕ → RoomAction Bool
  stop_find_match user = do room ← get_joined_room user; stop_in room

  abbrev pub new_room : ℕ → ℕ → Room
  new_room user id = record {
    id = id;
    player1 = user;
    player2 = none;
    player1_ready = none;
    player2_ready = none;
    timeout_job_id = none;
  }

  unfoldable pub create_room : ℕ → RoomAction (Option Room)
  create_room user = do
    id ← gets (λ w. model.new_id w.rooms)
    update (model.create (new_room user))
    lift (ok (some (new_room user id)))

  abbrev pub add_timeout_job : ℕ → RoomAction ℕ
  add_timeout_job room_id w =
      let (job, jobs) = queue.add room_id "30 seconds" w.jobs in (ok job, record w { jobs = jobs })

  unfoldable pub join_room : ℕ → Room → RoomAction (Option Room)
  join_room user room = do
    job ← add_timeout_job room.id
    update (
        update_one model room.id (λ r. record r { player2 = some user; timeout_job_id = some job }))
    joined ← find_room room.id
    publish (wait_ready joined)
    find_room room.id

  abbrev pub join_or_create : ℕ → Option Room → RoomAction (Option Room)
  unfolding join_room create_room
  join_or_create user (some waiting) = join_room user waiting
  join_or_create user none = create_room user

  unfoldable pub join_or_create_room : ℕ → RoomAction (Option Room)
  unfolding join_room create_room
  join_or_create_room user = do
    playing ← in_match (get_playing_match match_service user)
    lift (throw_if (is_some playing) (bad_request "You are in a match"))
    joined ← get_joined_room user
    lift (throw_if (is_some joined) (bad_request "You have joined a room"))
    waiting ← get_waiting_room
    join_or_create user waiting

  -- `getJob` of an absent id finds no job.
  abbrev pub without_job : Option ℕ → Q → Q
  without_job none jobs = jobs
  without_job (some id) jobs = elim (queue.get_job id jobs) [
    | none ↦ jobs
    | some job ↦ queue.remove id jobs
  ]

  -- Both are ready: `room` is the document as it was read.
  unfoldable pub start : Room → RoomAction (Unit {0})
  start room = do
    modify (λ w. record w { jobs = without_job room.timeout_job_id w.jobs })
    publish (all_ready (some room))
    remove_room room.id
    player2 ← lift (or_throw room.player2 type_error)
    _ ← in_match (create_match match_service room.player1 player2)
    lift (ok tt)

  abbrev pub start_if : Bool → Room → RoomAction (Unit {0})
  unfolding start
  start_if true room = start room
  start_if false room = lift (ok tt)

  unfoldable pub ready : ℕ → RoomAction Bool
  unfolding start
  ready user = do
    found ← get_joined_room user
    room ← lift (or_throw found (not_found "Not found joined room"))
    lift (throw_if (not (is_joined user room)) (bad_request "You are not in this room"))
    update (update_one model room.id (with_ready user room))
    start_if (both_ready (with_ready user room room)) room
    lift (ok true)

  -- `RoomConsumer.waitTimout`.
  unfoldable pub wait_timeout : ℕ → RoomAction (Unit {0})
  wait_timeout room_id = do
    room ← find_room room_id
    publish (ready_timeout room)
    remove_room room_id
