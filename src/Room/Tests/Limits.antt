-- ===== src/Room/Tests/Limits.antt =====
-- apps/realtime/src/drawing-room.ts: concrete runs of the limits of a room.
use echa.Prelude.{
  ℕ, ◌≤◌, ◌<◌, true, false, ◌≡◌, ◌≢◌, ◌⊎◌, ◌↔◌, refl, none, some, List, [], ◌∷◌, arith, count,
  length,
}
use echa.Protocol.Limits.{max_room_events, max_room_payload_bytes}
use echa.Room.Log.{StrokeLog}
use echa.Room.State.{ActivityLimit}
use echa.Room.Abuse.{
  AbuseTable, ActorAbuseAction, record_rate_abuse, escalate, actor_is_temporarily_muted,
}
use echa.Room.Abuse.Escalation.{abuse_run, Escalated, abuse_run_escalates}
use echa.Room.TimeLimit.{
  RoomTimeLimit, reconcile_room_time_warning, next_room_time_alarm, room_time_warning_stage,
  room_time_warning_for_stage,
}
use echa.Room.TimeLimit.Warnings.{warnings, IsFalling, warnings-IsFalling, alarm_warns}
use echa.Room.Activity.{room_activity_level, evaluate_levels, active_stroke}
use echa.Room.Activity.Levels.{evaluate_levels_lem}

runs : Unit {0}
unfolding record_rate_abuse escalate abuse_run actor_is_temporarily_muted
    reconcile_room_time_warning next_room_time_alarm room_time_warning_stage
    room_time_warning_for_stage warnings room_activity_level evaluate_levels
runs = tt

abbrev no_abuse : AbuseTable
no_abuse = record { rows = []; rate_limited = 0; short_mute = 0; abuse_disconnect = 0 }

abbrev nothing_yet : ActorAbuseAction
nothing_yet = record {
  muted_until = 0;
  disconnect = false;
  newly_muted = false;
  newly_disconnected = false;
}

-- Two more violations after the first.
abbrev twice_more : List ℕ
twice_more = 1_500 ∷ 2_000 ∷ []

abuse_run_escalates_example :
    Escalated "ann" no_abuse
      (abuse_run "ann" no_abuse nothing_yet (1_000 ∷ twice_more)).0
      (abuse_run "ann" no_abuse nothing_yet (1_000 ∷ twice_more)).1
      1_000
      3
      2_000
    × (actor_is_temporarily_muted "ann" 2_000
          (abuse_run "ann" no_abuse nothing_yet (1_000 ∷ twice_more)).0
        ≡ true)
abuse_run_escalates_example =
    abuse_run_escalates "ann" no_abuse nothing_yet 1_000 twice_more refl
      (omega arith, (omega arith, tt)) (omega arith, (omega arith, tt))

abbrev hour : RoomTimeLimit
hour = record { warning_stage = 0; due_at = 3_600_000 }

abbrev rings : List ℕ
rings = 2_700_000 ∷ 2_800_000 ∷ 3_300_000 ∷ 3_540_000 ∷ []

three_warnings : length (warnings hour rings) ≡ 3
unfolding runs
three_warnings = refl

warnings-IsFalling_example : IsFalling 16 (warnings hour rings)
warnings-IsFalling_example = warnings-IsFalling hour rings (omega arith)

first_alarm : next_room_time_alarm hour ≡ 2_700_000
unfolding runs
first_alarm = refl

alarm_warns_example :
    ((reconcile_room_time_warning hour 2_700_000).1 ≢ none)
    × (2_700_000 < next_room_time_alarm (reconcile_room_time_warning hour 2_700_000).0)
    × (next_room_time_alarm (reconcile_room_time_warning hour 2_700_000).0 ≤ 3_600_000)
alarm_warns_example =
    alarm_warns hour 2_700_000 (omega arith) (omega (arith, first_alarm)) (omega arith)

abbrev nearly_full : StrokeLog
nearly_full = record {
  strokes = [];
  events = [];
  last_seq = 93_000;
  accepted = 93_000;
  payload_bytes = 4_000_000;
}

abbrev quiet : ActivityLimit
quiet = record { warning_level = 90; reached_at = none }

level_at_limit : room_activity_level 93_000 4_000_000 ≡ 100
unfolding runs
level_at_limit = refl

evaluate_levels_example :
    ((evaluate_levels nearly_full quiet 5_000).0.warning_level ≡ 100)
    × ((at : ℕ)
        → quiet.reached_at ≡ some at
        → (evaluate_levels nearly_full quiet 5_000).0.reached_at ≡ some at)
    × (room_activity_level 93_000 4_000_000 ≡ 100
        → quiet.reached_at ≡ none
        → (evaluate_levels nearly_full quiet 5_000).0.reached_at ≡ some 5_000)
    × (room_activity_level 93_000 4_000_000 < 100
        → (evaluate_levels nearly_full quiet 5_000).0.reached_at ≡ quiet.reached_at)
    × (((evaluate_levels nearly_full quiet 5_000).1.message ≢ none) ↔ (90 < 100))
    × (((evaluate_levels nearly_full quiet 5_000).1.close_request ≢ none) ↔ (
        (room_activity_level 93_000 4_000_000 ≡ 100)
        × ((count active_stroke nearly_full.strokes ≡ 0)
            ⊎ ((max_room_events ≤ 93_000) ⊎ (max_room_payload_bytes ≤ 4_000_000)))))
unfolding room_activity_level
evaluate_levels_example = evaluate_levels_lem nearly_full quiet 5_000
