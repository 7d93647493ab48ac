-- ===== src/Room/Service/Calls.antt =====
-- What every call of the room service and of the match service keeps, in whatever order they come.
use zombiies_api.Common.{
  ℕ, ◌≡◌, ◌≢◌, refl, sym, ◌∙◌, inl, inr, true, Option, none, some, List, [], ◌∷◌, All-find_one, ok,
  arith, Bool-cases, Option-cases, is_some, update_one, find_holds, and_then-lift, or_throw,
  type_error, ◌++◌, delete_one,
}
use zombiies_api.Match.Service.{is_playing, create_match}
use zombiies_api.Match.Service.Duels
use zombiies_api.Match.Service.Duels.{AllDuels, after_call-AllDuels, create_match-AllDuels}
use zombiies_api.Room.Model.{Room, all_ready}
use zombiies_api.Room.Service.{
  RoomEnv, World, is_first, is_joined, is_waiting, with_ready, both_ready, clean_created_rooms,
  stop_find_match, join_or_create, join_or_create_room, start, ready, wait_timeout, without_job,
  in_match,
}
use zombiies_api.Room.Service.Pairs.{
  IsPair, RoomsOk, created-RoomsOk, deleted-RoomsOk, joined-RoomsOk, ready-RoomsOk,
}

module _ {S Q M J O : Type 0} (env : RoomEnv S Q M J O) where
  open env use {model, match_service}

  pub record ServerOk (w : World S Q M J O) : Type 0 where
    pub rooms_ok : RoomsOk env w.rooms
    pub all_duels : AllDuels match_service w.match_world

  join_or_create-ServerOk :
      (user : ℕ) (o : Option Room) (w : World S Q M J O)
      → ServerOk w
      → model.find_one (is_joined user) w.rooms ≡ none
      → model.find_one is_waiting w.rooms ≡ o
      → ServerOk (join_or_create env user o w).1
  unfolding join_or_create_room
  join_or_create-ServerOk user none w h n e = record {
    rooms_ok = created-RoomsOk env user w.rooms h.rooms_ok n;
    all_duels = h.all_duels;
  }
  join_or_create-ServerOk user (some room) w h n e = record {
    rooms_ok = joined-RoomsOk env user _ w.rooms room h.rooms_ok n e;
    all_duels = h.all_duels;
  }

  join_or_create_room-ServerOk :
      (user : ℕ) (w : World S Q M J O) → ServerOk w → ServerOk (join_or_create_room env user w).1
  unfolding join_or_create_room
  join_or_create_room-ServerOk user w h =
      elim (Option-cases (match_service.model.find_one (is_playing user) w.match_world.matches)) [
        | inr (m, p) ↦ rw p h
        | inl p ↦ elim (Option-cases (model.find_one (is_joined user) w.rooms)) [
          | inr (r, j) ↦ rw (p, j) h
          | inl j ↦
              rw (p, j)
                (join_or_create-ServerOk user (model.find_one is_waiting w.rooms) w h j refl)
        ]
      ]

  nobody_waits :
      (user : ℕ) (r : Room)
      → IsPair r
      → is_joined user r ≡ true
      → both_ready (with_ready user r r) ≡ true
      → r.player2 ≢ none
  nobody_waits user r h j b n = ground (arith, h.1, n, b, j)

  -- A room in which both are ready has two different players.
  both_ready-pair :
      (user : ℕ) (r : Room)
      → IsPair r
      → is_joined user r ≡ true
      → both_ready (with_ready user r r) ≡ true
      → (p : ℕ) × (r.player2 ≡ some p) × (r.player1 ≢ p)
  both_ready-pair user r h j b = elim (Option-cases r.player2) [
    | inl n ↦ absurd (nobody_waits user r h j b n)
    | inr (p, e) ↦ (p, e, λ q. ground (arith, h.0, e, q))
  ]

  -- What `start` has done when it calls the match service.
  abbrev started : Room → World S Q M J O → World S Q M J O
  started room w = record w {
    rooms = delete_one model room.id w.rooms;
    jobs = without_job env room.timeout_job_id w.jobs;
    events = w.events ++ all_ready (some room) ∷ [];
  }

  start-ServerOk :
      (room : Room) (p : ℕ) (w : World S Q M J O)
      → room.player2 ≡ some p
      → room.player1 ≢ p
      → ServerOk w
      → ServerOk (start env room w).1
  unfolding start
  start-ServerOk room p w e ne h =
      let found : or_throw room.player2 type_error ≡ ok p = rw e refl in
      rw found (
        rw
          (and_then-lift (in_match env (create_match match_service room.player1 p) (started room w))
            tt)
          (record {
            rooms_ok = deleted-RoomsOk env _ w.rooms h.rooms_ok;
            all_duels =
                create_match-AllDuels match_service room.player1 p w.match_world ne h.all_duels;
          }))

  ready-ServerOk : (user : ℕ) (w : World S Q M J O) → ServerOk w → ServerOk (ready env user w).1
  unfolding ready
  ready-ServerOk user w h = elim (Option-cases (model.find_one (is_joined user) w.rooms)) [
    | inl n ↦ rw n h
    | inr (room, f) ↦
        let joined : is_joined user room ≡ true =
          find_holds (is_joined user) (model.docs w.rooms)
            (sym (model.find_one_lem (is_joined user) w.rooms) ∙ f) in
        let pair : IsPair room =
          All-find_one model IsPair (is_joined user) w.rooms h.rooms_ok.pairs f in
        let v : World S Q M J O = record w {
          rooms = update_one model room.id (with_ready user room) w.rooms;
        } in
        let kept : ServerOk v = record {
          rooms_ok = ready-RoomsOk env user w.rooms room h.rooms_ok f;
          all_duels = h.all_duels;
        } in
        elim (Bool-cases (both_ready (with_ready user room room))) [
          | inl both ↦
              let two = both_ready-pair user room pair joined both in
              let starts = start-ServerOk room two.0 v two.1 two.2 kept in
              rw f (rw (joined, both) (rw (and_then-lift (start env room v) true) starts))
          | inr one ↦ rw f (rw (joined, one) kept)
        ]
  ]

  stop_find_match-ServerOk :
      (user : ℕ) (w : World S Q M J O) → ServerOk w → ServerOk (stop_find_match env user w).1
  unfolding stop_find_match
  stop_find_match-ServerOk user w h =
      elim (Option-cases (model.find_one (is_joined user) w.rooms)) [
        | inl n ↦ rw n h
        | inr (room, f) ↦ elim (Bool-cases (is_some room.player2)) [
          | inl full ↦ rw f (rw full h)
          | inr waiting ↦ rw f (
              rw waiting (record {
                rooms_ok = deleted-RoomsOk env _ w.rooms h.rooms_ok;
                all_duels = h.all_duels;
              }))
        ]
      ]

  clean_created_rooms-ServerOk :
      (user : ℕ) (w : World S Q M J O) → ServerOk w → ServerOk (clean_created_rooms env user w).1
  unfolding clean_created_rooms
  clean_created_rooms-ServerOk user w h = record {
    rooms_ok = deleted-RoomsOk env (is_first user) w.rooms h.rooms_ok;
    all_duels = h.all_duels;
  }

  wait_timeout-ServerOk :
      (id : ℕ) (w : World S Q M J O) → ServerOk w → ServerOk (wait_timeout env id w).1
  unfolding wait_timeout
  wait_timeout-ServerOk id w h = record {
    rooms_ok = deleted-RoomsOk env _ w.rooms h.rooms_ok;
    all_duels = h.all_duels;
  }

-- A call of the room service, by a user or by its queue, or one of the match service.
pub data Call : Type 0 where
  joins readies stops cleans times_out : ℕ → Call
  plays : Duels.Call → Call

module _ {S Q M J O : Type 0} (env : RoomEnv S Q M J O) where
  -- The state after a call, with or without an exception.
  unfoldable pub after_call : Call → World S Q M J O → World S Q M J O
  after_call (joins user) w = (join_or_create_room env user w).1
  after_call (readies user) w = (ready env user w).1
  after_call (stops user) w = (stop_find_match env user w).1
  after_call (cleans user) w = (clean_created_rooms env user w).1
  after_call (times_out id) w = (wait_timeout env id w).1
  after_call (plays c) w = record w {
    match_world = Duels.after_call env.match_service c w.match_world;
  }

  unfoldable pub after_calls : List Call → World S Q M J O → World S Q M J O
  unfolding after_call
  after_calls [] w = w
  after_calls (c ∷ cs) w = after_calls cs (after_call c w)

  after_call-ServerOk :
      (c : Call) (w : World S Q M J O) → ServerOk env w → ServerOk env (after_call c w)
  unfolding after_call
  after_call-ServerOk (joins user) w h = join_or_create_room-ServerOk env user w h
  after_call-ServerOk (readies user) w h = ready-ServerOk env user w h
  after_call-ServerOk (stops user) w h = stop_find_match-ServerOk env user w h
  after_call-ServerOk (cleans user) w h = clean_created_rooms-ServerOk env user w h
  after_call-ServerOk (times_out id) w h = wait_timeout-ServerOk env id w h
  after_call-ServerOk (plays c) w h = record {
    rooms_ok = h.rooms_ok;
    all_duels = after_call-AllDuels env.match_service c w.match_world h.all_duels;
  }

  -- Whatever calls the room service and the match service get, in whatever order and with whatever
  -- exceptions: no two rooms share an id, a user is in one room at most, a room's two players differ,
  -- nobody is ready in the place of an absent second player, and every match is a duel.
  pub after_calls-ServerOk :
      (cs : List Call) (w : World S Q M J O) → ServerOk env w → ServerOk env (after_calls cs w)
  unfolding after_calls
  after_calls-ServerOk [] w h = h
  after_calls-ServerOk (c ∷ cs) w h =
      after_calls-ServerOk cs (after_call c w) (after_call-ServerOk c w h)
