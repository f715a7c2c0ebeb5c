-- ===== src/Room/Activity/Levels.antt =====
-- apps/realtime/src/drawing-room.ts: what `evaluateRoomActivityLimit` does on every branch.
use echa.Prelude.{ℕ, ◌≤◌, ◌<◌, ◌≡◌, ◌≢◌, ◌⊎◌, ◌↔◌, none, some, arith, count, max}
use echa.Protocol.Limits.{max_room_events, max_room_payload_bytes}
use echa.Room.Log.{StrokeLog}
use echa.Room.State.{ActivityLimit}
use echa.Room.Activity.{room_activity_level, active_stroke, evaluate_levels}

-- More events or bytes never lower the level.
room_activity_level_mono :
    (e f b c : ℕ) → e ≤ f → b ≤ c → room_activity_level e b ≤ room_activity_level f c
unfolding room_activity_level
room_activity_level_mono e f b c h k = ground arith

-- The full level is reached exactly at the limits past which no stroke begins.
room_activity_level-full :
    (e b : ℕ) → (room_activity_level e b ≡ 100) ↔ ((93_000 ≤ e) ⊎ (58_720_256 ≤ b))
unfolding room_activity_level
room_activity_level-full e b = (λ h. ground arith, λ h. ground arith)

-- In a room that accepts drawing: the stored warning is the highest level so far; the time at which
-- the limit was reached stays once it is set, is set to now at the full level, and is not set below it;
-- a message is sent exactly when the level rises above the stored warning; and a close is requested exactly at
-- the full level, once no stroke is active or a hard limit is met.
pub evaluate_levels_lem :
    (log : StrokeLog) (current : ActivityLimit) (now : ℕ)
    → let (limit, evaluation) = evaluate_levels log current now in
      let level = room_activity_level log.accepted log.payload_bytes in
      (limit.warning_level ≡ max level current.warning_level)
      × ((at : ℕ) → current.reached_at ≡ some at → limit.reached_at ≡ some at)
      × (level ≡ 100 → current.reached_at ≡ none → limit.reached_at ≡ some now)
      × (level < 100 → limit.reached_at ≡ current.reached_at)
      × ((evaluation.message ≢ none) ↔ (current.warning_level < level))
      × ((evaluation.close_request ≢ none) ↔ (
          (level ≡ 100)
          × ((count active_stroke log.strokes ≡ 0)
              ⊎ ((max_room_events ≤ log.accepted) ⊎ (max_room_payload_bytes ≤ log.payload_bytes)))))
unfolding evaluate_levels
evaluate_levels_lem log current now = (
  ground arith,
  λ at h. ground arith,
  λ h k. ground arith,
  λ h. ground arith,
  (λ h. ground arith, λ h k. ground arith),
  (λ h. ground arith, λ h k. ground arith),
)
