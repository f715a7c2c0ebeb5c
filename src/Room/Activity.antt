-- ===== src/Room/Activity.antt =====
-- apps/realtime/src/drawing-room.ts: `roomActivityLevel`, `evaluateRoomActivityLimit` and
-- `currentRoomActivityMessage`.
pub mod Levels
pub mod Growth
use echa.Prelude.{
  ℕ, ◌+◌, ◌*◌, Bool, true, false, not, ◌&&◌, ◌||◌, Option, none, some, ltb, leb, ◌==◌,
  if◌then◌else◌, max, count, is_none, ◌>>=◌,
}
use echa.Protocol.Limits.{
  max_room_events, max_room_payload_bytes, room_activity_event_limit,
  room_activity_payload_limit_bytes,
}
use echa.Room.Log.{Stroke, StrokeLog, is_active}
use echa.Room.State.{
  RoomLifecycleState, LifecycleRow, room_lifecycle_state, accepts_drawing, ActivityLimit,
  CloseRequestId, system, RoomCloseReason, activity_limit, Room,
}

-- The test of one round of the loop.
abbrev pub reaches : (level event_count payload_bytes : ℕ) → Bool
reaches level event_count payload_bytes =
    leb (room_activity_event_limit * level) (event_count * 100)
    || leb (room_activity_payload_limit_bytes * level) (payload_bytes * 100)

unfoldable pub room_activity_level : (event_count payload_bytes : ℕ) → ℕ
room_activity_level events bytes =
    if reaches 100 events bytes
    then 100
    else if reaches 98 events bytes
    then 98
    else if reaches 90 events bytes
    then 90
    else if reaches 80 events bytes
    then 80
    else 0

-- `RoomActivityMessage` without the two limits, which are constants.
pub record RoomActivityMessage : Type 0 where
  pub level : ℕ
  pub event_count : ℕ
  pub payload_bytes : ℕ
  pub accepting_new_strokes : Bool

pub record RoomCloseRequest : Type 0 where
  pub close_request_id : CloseRequestId
  pub reason : RoomCloseReason

pub record RoomActivityLimitEvaluation : Type 0 where
  pub message : Option RoomActivityMessage
  pub close_request : Option RoomCloseRequest

abbrev pub active_stroke : Stroke → Bool
active_stroke s = is_active s.status

abbrev nothing : RoomActivityLimitEvaluation
nothing = record { message = none; close_request = none }

-- `current.reached_at ?? now` at the full level, `current.reached_at` below it.
abbrev pub reached_after : ℕ → Option ℕ → ℕ → Option ℕ
reached_after level (some at) now = some at
reached_after level none now = if level == 100 then some now else none

abbrev pub close_at : Option ℕ → Option RoomCloseRequest
close_at none = none
close_at (some at) =
    some (record { close_request_id = system activity_limit at; reason = activity_limit })

-- The evaluation in a room that accepts drawing. Where the row is not written it stays the same, so
-- that the write is made in any case.
unfoldable pub evaluate_levels :
    StrokeLog → ActivityLimit → ℕ → ActivityLimit × RoomActivityLimitEvaluation
evaluate_levels log current now =
    let level = room_activity_level log.accepted log.payload_bytes in
    if level == 0
    then (current, nothing)
    else let reached = reached_after level current.reached_at now in
      let hard = leb max_room_events log.accepted || leb max_room_payload_bytes log.payload_bytes in
      (
        record { warning_level = max level current.warning_level; reached_at = reached },
        record {
          message =
              if ltb current.warning_level level
              then some (record {
                level = level;
                event_count = log.accepted;
                payload_bytes = log.payload_bytes;
                accepting_new_strokes = not (level == 100);
              })
              else none;
          close_request =
              if level == 100 && (count active_stroke log.strokes == 0 || hard)
              then close_at reached
              else none;
        },
      )

unfoldable pub evaluate_room_activity_limit : ℕ → Room → Option (Room × RoomActivityLimitEvaluation)
unfolding evaluate_levels
evaluate_room_activity_limit now r = do
  lifecycle ← room_lifecycle_state r.lifecycle
  some (
      if accepts_drawing lifecycle
      then (let (limit, evaluation) = evaluate_levels r.log r.activity_limit now in
          (record r { activity_limit = limit }, evaluation))
      else (r, nothing))

unfoldable pub current_room_activity_message : Room → Option RoomActivityMessage
current_room_activity_message r =
    if r.activity_limit.warning_level == 0
    then none
    else some (record {
      level = r.activity_limit.warning_level;
      event_count = r.log.accepted;
      payload_bytes = r.log.payload_bytes;
      accepting_new_strokes = is_none r.activity_limit.reached_at;
    })
