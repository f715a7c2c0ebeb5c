-- ===== src/Room/Log/Events.antt =====
-- apps/realtime/src/drawing-room.ts: what every insertion keeps of the table `stroke_events` and
-- of the metrics `accepted` and `payload_bytes`.
use echa.Prelude.{
  ℕ, suc, ◌≤◌, ◌<◌, String, ◌≡◌, none, some, List, [], ◌∷◌, arith, eq_iff, count,
  count_of_find?-none, find?, le-max_of, find?-none_of_count,
}
use echa.Protocol.Messages.{RoomStrokeEvent}
use echa.Room.Log.{StoredEvent, StrokeLog, event_is, add_event, insert_event, seq_on, next_seq_on}

-- The rows, newest first, have falling keys below a bound.
abbrev pub IsNumbered : ℕ → List StoredEvent → Type 0
IsNumbered bound [] = Unit
IsNumbered bound (e ∷ es) = (e.room_seq < bound) × IsNumbered e.room_seq es

-- `UNIQUE(connection_id, client_seq)`, the keys, and the metric that counts them.
pub record EventsInv (l : StrokeLog) : Type 0 where
  pub seqs_unique : (c : String) (n : ℕ) → count (event_is c n) l.events ≤ 1
  pub numbered : IsNumbered (suc l.last_seq) l.events
  pub counted : l.accepted ≡ l.last_seq

module _ (byte_length : RoomStrokeEvent → ℕ) (actor connection : String) (seq : ℕ)
    (event : RoomStrokeEvent) (now : ℕ) (l : StrokeLog) where
  -- What an insertion that succeeds does.
  pub insert_event-EventsInv :
      {l' : StrokeLog}
      → EventsInv l
      → insert_event byte_length actor connection seq event now l ≡ some l'
      → EventsInv l'
  unfolding insert_event
  insert_event-EventsInv {l'} inv h = record {
    seqs_unique = λ c n. ground (
      arith,
      inv.seqs_unique c n,
      count_of_find?-none (event_is c n) l.events,
      eq_iff connection c,
    );
    numbered = ground arith;
    counted = ground arith;
  }

  -- An insertion that succeeds adds the row.
  pub insert_event-add :
      {l' : StrokeLog}
      → insert_event byte_length actor connection seq event now l ≡ some l'
      → l' ≡ add_event byte_length actor connection seq event now l
  unfolding insert_event
  insert_event-add h = ground arith

  -- An insertion under a free number succeeds.
  pub insert_event_lem :
      count (event_is connection seq) l.events ≡ 0
      → insert_event byte_length actor connection seq event now l
        ≡ some (add_event byte_length actor connection seq event now l)
  unfolding insert_event
  insert_event_lem free =
      let e : find? (event_is connection seq) l.events ≡ none =
        find?-none_of_count _ l.events free in
      rw e

pub next_seq_on-free :
    (connection : String) (events : List StoredEvent)
    → count (event_is connection (next_seq_on connection events)) events ≡ 0
next_seq_on-free connection events =
    le-max_of (seq_on connection) (event_is connection (next_seq_on connection events))
      (next_seq_on connection events) events (λ e h. ground arith) (omega arith)
