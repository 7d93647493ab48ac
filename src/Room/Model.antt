-- ===== src/Room/Model.antt =====
-- src/module/room/schema/room.schema.ts and the messages of subscription/room-subscription.trigger.ts.
use zombiies_api.Common.{ℕ, Option, Bool}

-- `player1Ready`, `player2Ready` and `timeoutJobId` are absent until they are set.
pub record Room : Type 0 where
  pub id : ℕ
  pub player1 : ℕ
  pub player2 : Option ℕ
  pub player1_ready : Option Bool
  pub player2_ready : Option Bool
  pub timeout_job_id : Option ℕ

-- A room that the query did not find is `null` in the message.
pub data RoomEvent : Type 0 where
  wait_ready all_ready ready_timeout : Option Room → RoomEvent
