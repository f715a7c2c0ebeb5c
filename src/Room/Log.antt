-- ===== src/Room/Log.antt =====
-- apps/realtime/src/drawing-room.ts: the tables `strokes` and `stroke_events` with the metrics that
-- count them, `applyStrokeLifecycle` and `finalizeActiveStrokes`.
-- `none` is an SQL constraint error, which is thrown and rolls the transaction back.
pub mod Strokes
pub mod Events
pub mod Finalize
pub mod Drawn
use text.Mathlib.Text.{is_le}
use Prim.Native.String.{compare}
use echa.Prelude.{
  ℕ, suc, ◌+◌, String, Bool, true, false, not, ◌&&◌, ◌||◌, Option, none, some, List, [], ◌∷◌, ltb,
  ◌==◌, same, if◌then◌else◌, is_some, ◌>>=◌, find?, select, update, max_of, length,
}
use echa.Protocol.Limits.{max_points_per_stroke}
use echa.Protocol.Messages.{
  Point, StrokeOp, begin, append, end, cancel, ClientStrokeEvent, RoomStrokeEvent, auto_finalized,
  RejectCode, out_of_order, unauthorized, stroke_not_found, stroke_already_final,
  room_limit_reached, AcceptedStrokeEvent,
}

pub data StrokeStatus : Type 0 where
  active ended cancelled : StrokeStatus

-- A row of `strokes`, by its key `stroke_id`.
pub record Stroke : Type 0 where
  pub stroke_id : String
  pub actor : String
  pub status : StrokeStatus
  pub last_dt : ℕ
  pub last_append_at : ℕ
  pub point_count : ℕ

-- A row of `stroke_events`; the payload is the event that it encodes.
pub record StoredEvent : Type 0 where
  pub room_seq : ℕ
  pub actor : String
  pub connection_id : String
  pub client_seq : ℕ
  pub event : RoomStrokeEvent
  pub payload_bytes : ℕ
  pub accepted_at : ℕ

-- `events` has the newest row first; `last_seq` is the counter of its AUTOINCREMENT key.
pub record StrokeLog : Type 0 where
  pub strokes : List Stroke
  pub events : List StoredEvent
  pub last_seq : ℕ
  pub accepted : ℕ
  pub payload_bytes : ℕ

abbrev pub is_active : StrokeStatus → Bool
is_active active = true
is_active _ = false

abbrev pub stroke_is : String → Stroke → Bool
stroke_is id s = same s.stroke_id id

abbrev pub active_of : String → Stroke → Bool
active_of actor s = is_active s.status && same s.actor actor

abbrev pub event_is : String → ℕ → StoredEvent → Bool
event_is connection seq e = same e.connection_id connection && e.client_seq == seq

-- The log after `INSERT INTO stroke_events … RETURNING room_seq` and the two `incrementMetric` calls
-- that follow every such insertion.
abbrev pub add_event :
    (RoomStrokeEvent → ℕ) → String → String → ℕ → RoomStrokeEvent → ℕ → StrokeLog → StrokeLog
add_event byte_length actor connection seq event now l = record l {
  events =
      record {
        room_seq = suc l.last_seq;
        actor = actor;
        connection_id = connection;
        client_seq = seq;
        event = event;
        payload_bytes = byte_length event;
        accepted_at = now;
      }
      ∷ l.events;
  last_seq = suc l.last_seq;
  accepted = l.accepted + 1;
  payload_bytes = l.payload_bytes + byte_length event;
}

-- The insertion under `UNIQUE(connection_id, client_seq)`.
unfoldable pub insert_event :
    (RoomStrokeEvent → ℕ) → String → String → ℕ → RoomStrokeEvent → ℕ → StrokeLog → Option StrokeLog
insert_event byte_length actor connection seq event now l =
    if is_some (find? (event_is connection seq) l.events)
    then none
    else some (add_event byte_length actor connection seq event now l)

-- The reply of `applyStrokeLifecycle`: the new table, or a rejection.
pub data Applied : Type 0 where
  applied : List Stroke → Applied
  refused : RejectCode → Applied

-- `INSERT INTO strokes` under its primary key and the index `one_active_stroke_per_actor`.
unfoldable pub insert_stroke : Stroke → List Stroke → Option (List Stroke)
insert_stroke s table =
    if is_some (find? (stroke_is s.stroke_id) table)
    then none
    else if is_active s.status && is_some (find? (active_of s.actor) table)
    then none
    else some (s ∷ table)

-- `points.at(-1)` after a first point.
abbrev pub last_of : Point → List Point → Point
last_of p [] = p
last_of p (q ∷ ps) = last_of q ps

abbrev pub begin_stroke : String → String → Point → ℕ → List Stroke → Option Applied
begin_stroke actor id point now table =
    if is_some (find? (active_of actor) table)
    then some (refused out_of_order)
    else if is_some (find? (stroke_is id) table)
    then some (refused stroke_already_final)
    else do
      table' ←
          insert_stroke
            (record {
              stroke_id = id;
              actor = actor;
              status = active;
              last_dt = point.dt;
              last_append_at = now;
              point_count = 1;
            })
            table
      some (applied table')

-- The `stroke.append` branch; reading `first[2]` of no points throws.
abbrev pub append_points : String → List Point → ℕ → Stroke → List Stroke → Option Applied
append_points id points now s table =
    if ltb max_points_per_stroke (s.point_count + length points)
    then some (refused room_limit_reached)
    else elim points [
      | [] ↦ none
      | p ∷ ps ↦
          if ltb p.dt s.last_dt
          then some (refused out_of_order)
          else some (
              applied (
                update (stroke_is id)
                  (λ x. record x {
                    last_dt = (last_of p ps).dt;
                    last_append_at = now;
                    point_count = x.point_count + length (p ∷ ps);
                  })
                  table))
    ]

abbrev pub close_stroke : String → StrokeStatus → ℕ → List Stroke → Option Applied
close_stroke id status now table = some (
    applied (update (stroke_is id) (λ x. record x { status = status; last_append_at = now }) table))

-- The guards that every event but `stroke.begin` meets.
abbrev pub existing_stroke :
    String → String → (Stroke → Option Applied) → List Stroke → Option Applied
existing_stroke actor id next table = elim (find? (stroke_is id) table) [
  | none ↦ some (refused stroke_not_found)
  | some s ↦
      if not (same s.actor actor)
      then some (refused unauthorized)
      else if not (is_active s.status)
      then some (refused stroke_already_final)
      else next s
]

unfoldable pub apply_op : String → String → StrokeOp → ℕ → List Stroke → Option Applied
unfolding insert_stroke
apply_op actor id (begin style point) now table = begin_stroke actor id point now table
apply_op actor id (append points) now table =
    existing_stroke actor id (λ s. append_points id points now s table) table
apply_op actor id end now table =
    existing_stroke actor id (λ s. close_stroke id ended now table) table
apply_op actor id cancel now table =
    existing_stroke actor id (λ s. close_stroke id cancelled now table) table

unfoldable pub apply_stroke_lifecycle :
    String → ClientStrokeEvent → ℕ → List Stroke → Option Applied
unfolding apply_op
apply_stroke_lifecycle actor event now table = apply_op actor event.id event.op now table

-- The `WHERE` of `finalizeActiveStrokes`; an absent or empty actor selects all.
abbrev pub wanted : Option String → Stroke → Bool
wanted none s = is_active s.status
wanted (some actor) s = is_active s.status && (same actor "" || same s.actor actor)

-- `ORDER BY stroke_id`.
abbrev pub insert_by_id : Stroke → List Stroke → List Stroke
insert_by_id s [] = s ∷ []
insert_by_id s (t ∷ ts) =
    let rest = t ∷ insert_by_id s ts in
    if is_le (compare s.stroke_id t.stroke_id) then s ∷ t ∷ ts else rest

abbrev pub order_by_id : List Stroke → List Stroke
order_by_id [] = []
order_by_id (s ∷ ss) = insert_by_id s (order_by_id ss)

abbrev pub end_stroke : String → ℕ → List Stroke → List Stroke
end_stroke id now =
    update (λ x. stroke_is id x && is_active x.status)
      (λ x. record x { status = ended; last_append_at = now })

abbrev seq_on : String → StoredEvent → ℕ
seq_on connection e = if same e.connection_id connection then e.client_seq else 0

-- `SELECT COALESCE(MAX(client_seq), 0) + 1 … WHERE connection_id = ?`.
abbrev pub next_seq_on : String → List StoredEvent → ℕ
next_seq_on connection events = suc (max_of (seq_on connection) events)

module _ (byte_length : RoomStrokeEvent → ℕ) where
  -- The loop of `finalizeActiveStrokes`.
  unfoldable pub finalize_each :
      String → ℕ → List Stroke → StrokeLog → Option (StrokeLog × List AcceptedStrokeEvent)
  finalize_each connection now [] l = some (l, [])
  finalize_each connection now (s ∷ ss) l = do
    l' ←
        insert_event byte_length s.actor connection (next_seq_on connection l.events)
          (auto_finalized s.stroke_id) now l
    (l'', rest) ←
        finalize_each connection now ss
          (record l' { strokes = end_stroke s.stroke_id now l'.strokes })
    some (
      l'',
      record {
        room_seq = l'.last_seq;
        actor = s.actor;
        connection_id = connection;
        accepted_at = now;
        event = auto_finalized s.stroke_id;
      }
          ∷ rest,
    )

  unfoldable pub finalize_active_strokes :
      String → ℕ → Option String → StrokeLog → Option (StrokeLog × List AcceptedStrokeEvent)
  unfolding finalize_each
  finalize_active_strokes connection now actor l =
      finalize_each connection now (order_by_id (select (wanted actor) l.strokes)) l
