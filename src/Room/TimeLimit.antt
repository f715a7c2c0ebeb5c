-- ===== src/Room/TimeLimit.antt =====
-- apps/realtime/src/drawing-room.ts: the warnings before a room's end. A limit is there once the
-- task `max_duration` is scheduled.
pub mod Warnings
use echa.Prelude.{
  ℕ, ◌-◌, ◌*◌, Bool, true, false, Option, none, some, ltb, leb, ◌==◌, if◌then◌else◌, max,
}

abbrev pub minute_ms : ℕ
minute_ms = 60 * 1_000

-- `RoomTimeLimitRow`.
pub record RoomTimeLimit : Type 0 where
  pub warning_stage : ℕ
  pub due_at : ℕ

pub record RoomTimeMessage : Type 0 where
  pub warning_minutes : ℕ
  pub ends_at : ℕ
  pub remaining_ms : ℕ

unfoldable pub room_time_warning_for_stage : ℕ → Option ℕ
room_time_warning_for_stage stage =
    if stage == 1
    then some 15
    else if stage == 2
    then some 5
    else if stage == 3
    then some 1
    else none

unfoldable pub room_time_warning_stage : ℕ → ℕ
room_time_warning_stage remaining_ms =
    if leb remaining_ms minute_ms
    then 3
    else if leb remaining_ms (5 * minute_ms)
    then 2
    else if leb remaining_ms (15 * minute_ms)
    then 1
    else 0

unfoldable pub current_room_time_message : Option RoomTimeLimit → ℕ → Option RoomTimeMessage
unfolding room_time_warning_for_stage
current_room_time_message none now = none
current_room_time_message (some limit) now =
    elim (room_time_warning_for_stage limit.warning_stage) [
      | none ↦ none
      | some minutes ↦ some (record {
        warning_minutes = minutes;
        ends_at = limit.due_at;
        remaining_ms = limit.due_at - now;
      })
    ]

-- The stage after the call, and the message to broadcast.
unfoldable pub reconcile_room_time_warning :
    RoomTimeLimit → ℕ → RoomTimeLimit × Option RoomTimeMessage
unfolding room_time_warning_stage room_time_warning_for_stage
reconcile_room_time_warning limit now =
    if leb limit.due_at now
    then (limit, none)
    else let remaining = limit.due_at - now in
      let next = room_time_warning_stage remaining in
      if leb next limit.warning_stage then (limit, none) else (
        record limit { warning_stage = next },
        elim (room_time_warning_for_stage next) [
          | none ↦ none
          | some minutes ↦ some (record {
            warning_minutes = minutes;
            ends_at = limit.due_at;
            remaining_ms = remaining;
          })
        ],
      )

abbrev pub minutes_before : ℕ → ℕ
minutes_before stage =
    if stage == 0 then 15 else if stage == 1 then 5 else if stage == 2 then 1 else 0

-- A due time in the first minutes after 1970 would be negative in the code; it is 0 here.
unfoldable pub next_room_time_alarm : RoomTimeLimit → ℕ
next_room_time_alarm limit = limit.due_at - minutes_before limit.warning_stage * minute_ms
