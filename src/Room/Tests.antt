-- ===== src/Room/Tests.antt =====
-- Rooms in memory beside the concrete match of Match/Fixture, on which the theorems of Room are
-- applied.
use zombiies_api.Common.{ℕ, ◌≤◌, refl, true, none, some, List, [], ◌∷◌, arith}
use zombiies_api.Common.Memory.{memory, memory_queue}
use zombiies_api.Common.Keys.{count}
use zombiies_api.Match.Model.{Match}
use zombiies_api.Match.Service.Duels
use zombiies_api.Match.Turn.Roles.{IsDuel}
use zombiies_api.Match.Fixture
use zombiies_api.Match.Fixture.{duel}
use zombiies_api.Room.Model.{Room}
use zombiies_api.Room.Service.{RoomEnv, World, is_joined, ready}
use zombiies_api.Room.Service.Calls.{
  ServerOk, Call, joins, readies, stops, times_out, plays, after_calls, after_calls-ServerOk,
}
use zombiies_api.Room.Service.Ready.{ReadyOutcome, ready-ReadyOutcome}

abbrev full_room : Room
full_room = record {
  id = 4;
  player1 = 5;
  player2 = some 6;
  player1_ready = none;
  player2_ready = some true;
  timeout_job_id = some 2;
}

abbrev pub env : RoomEnv (List Room) (List (ℕ × ℕ)) (List Match) (List (ℕ × ℕ)) ℕ
env = record {
  model = memory (λ r. r.id);
  id_lem = λ r. refl;
  queue = memory_queue;
  match_service = Fixture.env;
}

abbrev pub world : World (List Room) (List (ℕ × ℕ)) (List Match) (List (ℕ × ℕ)) ℕ
world = record {
  rooms = full_room ∷ [];
  jobs = (2, 4) ∷ [];
  match_world = Fixture.world;
  events = [];
}

one_room : (user : ℕ) → count (is_joined user) (full_room ∷ []) ≤ 1
one_room user = ground arith

duel-IsDuel : IsDuel duel
duel-IsDuel = ground arith

pub world-ServerOk : ServerOk env world
world-ServerOk = record {
  rooms_ok = record { keyed = (refl, tt); pairs = ((refl, refl), tt); single = one_room };
  all_duels = (duel-IsDuel, tt);
}

abbrev calls : List Call
calls =
    joins 7
    ∷ joins 8
    ∷ readies 6
    ∷ readies 5
    ∷ readies 8
    ∷ plays (Duels.surrenders 1)
    ∷ times_out 9
    ∷ stops 7
    ∷ []

after_calls-ServerOk_example : ServerOk env (after_calls env calls world)
after_calls-ServerOk_example = after_calls-ServerOk env calls world world-ServerOk

ready-ReadyOutcome_example : ReadyOutcome env 5 world (ready env 5 world)
ready-ReadyOutcome_example = ready-ReadyOutcome env 5 world world-ServerOk.rooms_ok
