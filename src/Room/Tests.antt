-- ===== src/Room/Tests.antt =====
-- apps/realtime/src/drawing-room.ts: a small room on which the theorems about drawing are run.
mod Limits
mod Runs
mod Talk
mod Life
mod Cut
use echa.Prelude.{
  String, same, false, ℕ, suc, ◌+◌, ◌-◌, ◌*◌, ◌≤◌, true, ◌≡◌, ◌≢◌, refl, none, some, List, [], ◌∷◌,
  map, arith, count, if◌then◌else◌, length, ◌⊎◌,
}
use echa.Protocol.Messages.{
  brush, begin, ClientStrokeEvent, RoomStrokeEvent, host, AcceptedStrokeEvent, duplicate,
  out_of_order, RejectMessage,
}
use echa.Room.Log.{
  Stroke, active, StrokeLog, wanted, applied, apply_stroke_lifecycle, insert_event,
  finalize_active_strokes, event_is,
}
use echa.Room.Log.Strokes.{
  StrokesInv, apply_stroke_lifecycle-StrokesInv, apply_stroke_lifecycle-total,
}
use echa.Room.Log.Events.{EventsInv}
use echa.Room.Log.Finalize.{ended_at, IsConsecutive, finalize_active_strokes_lem, HasUniqueIds}
use echa.Room.Tokens.{Bucket, token, take_token}
use echa.Room.Tokens.Bounds.{admitted, last_time, admitted_bound, take_token_recovers}
use echa.Room.State.{
  waiting, LifecycleRow, Connection, ConnectionAttachment, ActivityLimit, Room, connection_is,
  room_lifecycle_state,
}
use echa.Room.State
use echa.Room.Persist.{accepted, rejected, update_connection, set_rate, persist_event}
use echa.Room.Persist.Invariant.{RoomInv, persist_event-RoomInv}
use echa.Room.Persist.Effects.{
  Advanced, persist_event-total, persist_event_rejected, persist_event_accepted,
  persist_event_again,
}

runs : Unit {0}
unfolding apply_stroke_lifecycle insert_event finalize_active_strokes take_token admitted
    persist_event room_lifecycle_state
runs = tt

abbrev size : RoomStrokeEvent → ℕ
size e = 40

abbrev full : ℕ → Bucket
full n = record { tokens = n * token; updated_at = 1_000 }

abbrev ann : Connection
ann = record {
  connection_id = "conn-ann";
  actor = "ann";
  last_client_seq = 0;
  rate = full 120;
  cursor_rate = full 30;
  chat_rate = full 5;
  role = host;
  can_chat = true;
  display_name = none;
  avatar_url = none;
}

abbrev ann_socket : ConnectionAttachment
ann_socket = record { actor = "ann"; connection_id = "conn-ann"; role = host; room_id = "room-one" }

abbrev empty_log : StrokeLog
empty_log = record { strokes = []; events = []; last_seq = 0; accepted = 0; payload_bytes = 0 }

abbrev fresh : Room
fresh = record {
  lifecycle = record {
    status = State.LifecycleStatus.active;
    status_changed_at = 1_000;
    last_activity_at = some 1_000;
    close_request_id = none;
    close_reason = none;
    closing_started_at = none;
    finalized_stroke_count = 0;
    superseded_snapshot_job_count = 0;
  };
  connections = ann ∷ [];
  log = empty_log;
  activity_limit = record { warning_level = 0; reached_at = none };
}

abbrev first_event : ClientStrokeEvent
first_event = record {
  client_seq = 1;
  id = "stroke-one";
  op =
      begin (record { tool = brush; color = "#000000"; size = 400; opacity = 100 })
        (record { x = 0; y = 0; dt = 0 });
}

abbrev drawn : Stroke
drawn = record {
  stroke_id = "stroke-one";
  actor = "ann";
  status = active;
  last_dt = 0;
  last_append_at = 1_010;
  point_count = 1;
}

no_strokes : StrokesInv []
no_strokes = record {
  ids_unique = λ id. omega arith;
  one_active = λ actor. omega arith;
  points_bounded = tt;
}

fresh-RoomInv : RoomInv fresh
fresh-RoomInv = record {
  strokes = no_strokes;
  events = record { seqs_unique = λ c n. omega arith; numbered = tt; counted = refl };
  ordered = λ id c n found past. refl;
}

begun : apply_stroke_lifecycle "ann" first_event 1_010 [] ≡ some (applied (drawn ∷ []))
unfolding runs
begun = refl

apply_stroke_lifecycle-StrokesInv_example : StrokesInv (drawn ∷ [])
apply_stroke_lifecycle-StrokesInv_example =
    apply_stroke_lifecycle-StrokesInv "ann" first_event 1_010 [] no_strokes begun

begin_answered : apply_stroke_lifecycle "ann" first_event 1_010 [] ≢ none
begin_answered = apply_stroke_lifecycle-total "ann" first_event 1_010 [] tt

one_drawn : HasUniqueIds (drawn ∷ [])
one_drawn id = ground arith

-- A log with one active stroke.
abbrev open_log : StrokeLog
open_log = record empty_log { strokes = drawn ∷ [] }

finalize_active_strokes_example :
    (l' : StrokeLog) × (out : List AcceptedStrokeEvent) × (finalize_active_strokes size
        "server_room_close" 2_000 none open_log
      ≡ some (l', out))
    × (l'.strokes ≡ map (λ s. if wanted none s then ended_at 2_000 s else s) open_log.strokes)
    × (count (wanted none) l'.strokes ≡ 0)
    × (length out ≡ count (wanted none) open_log.strokes)
    × (l'.accepted ≡ open_log.accepted + count (wanted none) open_log.strokes)
    × IsConsecutive (suc open_log.last_seq) out
    × (EventsInv open_log → EventsInv l')
    × ((id : String) (n : ℕ)
        → same "server_room_close" id ≡ false
        → count (event_is id n) l'.events ≡ count (event_is id n) open_log.events)
finalize_active_strokes_example =
    finalize_active_strokes_lem size "server_room_close" 2_000 none open_log one_drawn

-- A bucket of two tokens that gains one in a second: three of the four requests pass.
abbrev small : Bucket
small = full 2

admitted_bound_example :
    (admitted 2 1 small (1_000 ∷ 1_000 ∷ 1_500 ∷ 2_000 ∷ [])).1 * token
    ≤ 2 * token + (last_time 1_000 (1_000 ∷ 1_000 ∷ 1_500 ∷ 2_000 ∷ []) - 1_000) * 1
admitted_bound_example =
    admitted_bound 2 1 small (1_000 ∷ 1_000 ∷ 1_500 ∷ 2_000 ∷ []) (omega arith) (omega arith)

three_pass : (admitted 2 1 small (1_000 ∷ 1_000 ∷ 1_500 ∷ 2_000 ∷ [])).1 ≡ 3
unfolding runs
three_pass = refl

one_token_back : (take_token 2 1 (record { tokens = 0; updated_at = 1_000 }) 2_000).1 ≡ true
one_token_back =
    take_token_recovers 2 1 (record { tokens = 0; updated_at = 1_000 }) 2_000 (omega arith)
      (omega arith)

-- The room after the first event, and the message that announces it.
abbrev ann_after : Connection
ann_after = record ann {
  last_client_seq = 1;
  rate = record { tokens = 119_000; updated_at = 1_010 };
}

abbrev announced : AcceptedStrokeEvent
announced = record {
  room_seq = 1;
  actor = "ann";
  connection_id = "conn-ann";
  accepted_at = 1_010;
  event = RoomStrokeEvent.from_client first_event;
}

abbrev begun_room : Room
begun_room = record fresh {
  connections = ann_after ∷ [];
  log = record {
    strokes = drawn ∷ [];
    events =
        record {
          room_seq = 1;
          actor = "ann";
          connection_id = "conn-ann";
          client_seq = 1;
          event = RoomStrokeEvent.from_client first_event;
          payload_bytes = 40;
          accepted_at = 1_010;
        }
        ∷ [];
    last_seq = 1;
    accepted = 1;
    payload_bytes = 40;
  };
}

first_accepted :
    persist_event size ann_socket first_event 1_010 fresh ≡ some (begun_room, accepted announced)
unfolding runs
first_accepted = refl

persist_event-RoomInv_example : RoomInv begun_room
persist_event-RoomInv_example =
    persist_event-RoomInv size ann_socket first_event 1_010 fresh fresh-RoomInv first_accepted

fresh_state : room_lifecycle_state fresh.lifecycle ≢ none
unfolding runs
fresh_state = λ e. cc e

persist_event-total_example : persist_event size ann_socket first_event 1_010 fresh ≢ none
persist_event-total_example =
    persist_event-total size ann_socket first_event 1_010 fresh fresh-RoomInv tt fresh_state
      (omega arith)

persist_event_accepted_example :
    (c : Connection) × Advanced size ann_socket first_event 1_010 fresh begun_room announced c
persist_event_accepted_example =
    persist_event_accepted size ann_socket first_event 1_010 fresh first_accepted

persist_event_again_example :
    persist_event size ann_socket first_event 1_020 begun_room
    ≡ some (begun_room, rejected (record { client_seq = 1; code = duplicate }))
persist_event_again_example =
    persist_event_again size ann_socket first_event 1_010 1_020 fresh first_accepted

-- An event that skips a number.
abbrev skipping : ClientStrokeEvent
skipping = record first_event { client_seq = 3 }

abbrev too_late : RejectMessage
too_late = record { client_seq = 3; code = out_of_order }

skipped : persist_event size ann_socket skipping 1_010 fresh ≡ some (fresh, rejected too_late)
unfolding runs
skipped = refl

persist_event_rejected_example :
    (too_late.client_seq ≡ skipping.client_seq)
    × ((fresh ≡ fresh)
        ⊎ ((bucket : Bucket) × (fresh ≡ update_connection "conn-ann" (set_rate bucket) fresh)))
persist_event_rejected_example = persist_event_rejected size ann_socket skipping 1_010 fresh skipped
