-- ===== src/Room/Persist.antt =====
-- apps/realtime/src/drawing-room.ts: `persistEvent` and `discardOrderedEvent`.
-- `none` is an exception, after which the transaction is rolled back. The length of an event's
-- MessagePack encoding is a parameter.
pub mod Outcome
pub mod Invariant
pub mod Effects
use echa.Prelude.{
  ℕ, suc, ◌+◌, String, Bool, true, false, not, ◌&&◌, ◌||◌, Option, none, some, ltb, leb, same,
  if◌then◌else◌, is_some, find?, update, ◌>>=◌,
}
use echa.Protocol.Limits.{
  max_frame_bytes, event_rate_burst, event_rate_per_second, max_room_events, max_room_payload_bytes,
  room_activity_event_limit, room_activity_payload_limit_bytes,
}
use echa.Protocol.Messages.{
  StrokeOp, begin, append, end, cancel, ClientStrokeEvent, RoomStrokeEvent, from_client, RejectCode,
  unauthorized, room_not_active, rate_limited, out_of_order, duplicate, room_limit_reached,
  RejectMessage, AcceptedStrokeEvent,
}
use echa.Room.Log.{
  StrokeLog, Applied, applied, refused, apply_stroke_lifecycle, add_event, insert_event,
}
use echa.Room.Tokens.{Bucket, take_token}
use echa.Room.State.{
  RoomLifecycleState, room_lifecycle_state, accepts_drawing, Connection, ConnectionAttachment, Room,
  connection_is,
}

pub data Reply : Type 0 where
  accepted : AcceptedStrokeEvent → Reply
  rejected : RejectMessage → Reply

-- `UPDATE connections SET rate_tokens = ?, rate_updated_at = ?`.
abbrev pub set_rate : Bucket → Connection → Connection
set_rate b c = record c { rate = b }

-- `UPDATE connections SET last_client_seq = ?`.
abbrev pub set_last_client_seq : ℕ → Connection → Connection
set_last_client_seq n c = record c { last_client_seq = n }

abbrev pub update_connection : String → (Connection → Connection) → Room → Room
update_connection id f r = record r { connections = update (connection_is id) f r.connections }

abbrev pub is_begin : StrokeOp → Bool
is_begin (begin style point) = true
is_begin _ = false

-- `stroke.end` and `stroke.cancel`.
abbrev pub is_final : StrokeOp → Bool
is_final end = true
is_final cancel = true
is_final _ = false

-- The condition under which `persistEvent` answers `ROOM_LIMIT_REACHED`.
unfoldable pub over_activity_limit : StrokeOp → ℕ → Room → Bool
over_activity_limit op bytes r =
    is_begin op
      && (is_some r.activity_limit.reached_at
          || leb room_activity_event_limit r.log.accepted
          || leb room_activity_payload_limit_bytes r.log.payload_bytes)
    || not (is_final op)
      && (leb max_room_events r.log.accepted
          || ltb max_room_payload_bytes (r.log.payload_bytes + bytes))

module _ (byte_length : RoomStrokeEvent → ℕ) where
  abbrev pub reject : RejectCode → ClientStrokeEvent → Room → Option (Room × Reply)
  reject code event r = some (r, rejected (record { client_seq = event.client_seq; code = code }))

  -- From the payload on: its encoding, which throws where it is too large, the activity limit, the stroke's life, the insertion and its counters.
  pub persist_admitted : ConnectionAttachment → ClientStrokeEvent → ℕ → Room → Option (Room × Reply)
  unfolding over_activity_limit
  persist_admitted a event now r =
      if ltb max_frame_bytes (byte_length (from_client event))
      then none
      else if over_activity_limit event.op (byte_length (from_client event)) r
      then reject room_limit_reached event r
      else do
        result ← apply_stroke_lifecycle a.actor event now r.log.strokes
        elim result [
          | refused code ↦ reject code event r
          | applied strokes ↦ do
            log' ←
                insert_event byte_length a.actor a.connection_id event.client_seq
                  (from_client event) now (record r.log { strokes = strokes })
            some (
              update_connection a.connection_id (set_last_client_seq event.client_seq)
                  (record r { log = log' }),
              accepted (record {
                room_seq = log'.last_seq;
                actor = a.actor;
                connection_id = a.connection_id;
                accepted_at = now;
                event = from_client event;
              }),
            )
        ]

  -- The checks on the connection and its order, then the bucket, whose new level is kept.
  pub persist_on :
      Connection → ConnectionAttachment → ClientStrokeEvent → ℕ → Room → Option (Room × Reply)
  unfolding persist_admitted
  persist_on c a event now r =
      if not (same c.actor a.actor)
      then reject unauthorized event r
      else if ltb event.client_seq (c.last_client_seq + 1)
      then reject duplicate event r
      else if ltb (c.last_client_seq + 1) event.client_seq
      then reject out_of_order event r
      else let (bucket, has_token) = take_token event_rate_burst event_rate_per_second c.rate now in
        let r' = update_connection a.connection_id (set_rate bucket) r in
        if has_token then persist_admitted a event now r' else reject rate_limited event r'

  -- `persistEvent` once the state of the room is read.
  pub persist_in :
      RoomLifecycleState
      → ConnectionAttachment
      → ClientStrokeEvent
      → ℕ
      → Room
      → Option (Room × Reply)
  unfolding persist_on
  persist_in lifecycle a event now r =
      if not (accepts_drawing lifecycle)
      then reject room_not_active event r
      else elim (find? (connection_is a.connection_id) r.connections) [
        | none ↦ reject unauthorized event r
        | some c ↦ persist_on c a event now r
      ]

  unfoldable pub persist_event :
      ConnectionAttachment → ClientStrokeEvent → ℕ → Room → Option (Room × Reply)
  unfolding persist_in
  persist_event a event now r = do
    lifecycle ← room_lifecycle_state r.lifecycle
    persist_in lifecycle a event now r

-- `discardOrderedEvent`: a number that is next in order is used up, and nothing else happens.
unfoldable pub discard_ordered_event :
    ConnectionAttachment → ClientStrokeEvent → RejectCode → Room → Room × RejectCode
discard_ordered_event a event code r = elim (find? (connection_is a.connection_id) r.connections) [
  | none ↦ (r, unauthorized)
  | some c ↦
      if not (same c.actor a.actor)
      then (r, unauthorized)
      else if ltb event.client_seq (c.last_client_seq + 1)
      then (r, duplicate)
      else if ltb (c.last_client_seq + 1) event.client_seq
      then (r, out_of_order)
      else (update_connection a.connection_id (set_last_client_seq event.client_seq) r, code)
]
