-- ===== src/Room/TimeLimit/Warnings.antt =====
-- apps/realtime/src/drawing-room.ts: the warnings that the alarms of a room send.
use echa.Prelude.{
  ℕ, ◌*◌, ◌≤◌, ◌<◌, ◌≡◌, ◌≢◌, Option, none, some, List, [], ◌∷◌, Option-cases, inl, inr, ◌==◌,
  if◌then◌else◌, arith,
}
use echa.Room.TimeLimit.{
  minute_ms, RoomTimeLimit, RoomTimeMessage, reconcile_room_time_warning, next_room_time_alarm,
}

sent : Option RoomTimeMessage → List RoomTimeMessage → List RoomTimeMessage
sent none rest = rest
sent (some m) rest = m ∷ rest

-- The messages of the alarms that ring at the given times, oldest first.
unfoldable pub warnings : RoomTimeLimit → List ℕ → List RoomTimeMessage
unfolding sent
warnings limit [] = []
warnings limit (now ∷ times) =
    let (limit', message) = reconcile_room_time_warning limit now in
    sent message (warnings limit' times)

-- The minutes fall from one warning to the next.
abbrev pub IsFalling : ℕ → List RoomTimeMessage → Type 0
IsFalling bound [] = Unit
IsFalling bound (m ∷ ms) =
    (m.warning_minutes < bound)
    × (m.remaining_ms ≤ m.warning_minutes * minute_ms)
    × IsFalling m.warning_minutes ms

-- The minutes that a stage has announced; more than all of them before the first.
abbrev announced : ℕ → ℕ
announced stage =
    if stage == 0
    then 16
    else if stage == 1
    then 15
    else if stage == 2
    then 5
    else if stage == 3
    then 1
    else 0

reconcile_stage :
    (limit : RoomTimeLimit) (now : ℕ)
    → limit.warning_stage ≤ 3
    → let (limit', message) = reconcile_room_time_warning limit now in
      (limit'.warning_stage ≤ 3)
      × (limit'.due_at ≡ limit.due_at)
      × (announced limit'.warning_stage ≤ announced limit.warning_stage)
unfolding reconcile_room_time_warning
reconcile_stage limit now h = ground arith

reconcile_message :
    (limit : RoomTimeLimit) (now : ℕ) {m : RoomTimeMessage}
    → limit.warning_stage ≤ 3
    → (reconcile_room_time_warning limit now).1 ≡ some m
    → (m.warning_minutes < announced limit.warning_stage)
      × (m.remaining_ms ≤ m.warning_minutes * minute_ms)
      × (m.warning_minutes ≡ announced (reconcile_room_time_warning limit now).0.warning_stage)
unfolding reconcile_room_time_warning
reconcile_message limit now h e = ground arith

warnings_below :
    (limit : RoomTimeLimit) (bound : ℕ) (times : List ℕ)
    → limit.warning_stage ≤ 3
    → announced limit.warning_stage ≤ bound
    → IsFalling bound (warnings limit times)
unfolding warnings
warnings_below limit bound [] h k = tt
warnings_below limit bound (now ∷ times) h k =
    let (stage, due, falls) = reconcile_stage limit now h in
    elim (Option-cases (reconcile_room_time_warning limit now).1) [
      | inl e ↦
          rw e (
            warnings_below (reconcile_room_time_warning limit now).0 bound times stage
              (omega arith))
      | inr (m, e) ↦
          let (below, near, minutes) = reconcile_message limit now h e in
          rw e (
            omega arith,
            near,
            warnings_below (reconcile_room_time_warning limit now).0 m.warning_minutes times stage
                (omega arith),
          )
    ]

-- From a stage of at most 3, and whatever the times at which the alarm rings, the warnings
-- announce fewer minutes each time, so that none is sent twice, and none announces less than what
-- remains.
pub warnings-IsFalling :
    (limit : RoomTimeLimit) (times : List ℕ)
    → limit.warning_stage ≤ 3
    → IsFalling 16 (warnings limit times)
warnings-IsFalling limit times h = warnings_below limit 16 times h (ground arith)

-- With a warning left, an alarm that rings at its time or later, but before the room's end, sends
-- one, and the next alarm lies ahead of it and not past the end.
pub alarm_warns :
    (limit : RoomTimeLimit) (now : ℕ)
    → limit.warning_stage ≤ 2
    → next_room_time_alarm limit ≤ now
    → now < limit.due_at
    → let (limit', message) = reconcile_room_time_warning limit now in
      (message ≢ none)
      × (now < next_room_time_alarm limit')
      × (next_room_time_alarm limit' ≤ limit.due_at)
unfolding reconcile_room_time_warning next_room_time_alarm
alarm_warns limit now h k inside = ground arith
