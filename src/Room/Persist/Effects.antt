-- ===== src/Room/Persist/Effects.antt =====
-- apps/realtime/src/drawing-room.ts: what a client learns from the replies of `persistEvent`.
use echa.Prelude.{◌≤◌}
use echa.Protocol.Limits.{max_frame_bytes}
use echa.Prelude.{
  ℕ, suc, ◌+◌, true, ◌≡◌, ◌≢◌, refl, ap, ◌⊎◌, inl, inr, none, some, ◌∷◌, arith, same, find?,
  Option-cases, Bool-cases, ltb, find?-update_self,
}
use echa.Protocol.Messages.{
  ClientStrokeEvent, RoomStrokeEvent, from_client, RejectMessage, AcceptedStrokeEvent, duplicate,
}
use echa.Room.Log.{StoredEvent, StrokeLog}
use echa.Room.Log.Strokes.{HasPoints}
use echa.Room.Log.Events.{insert_event-add}
use echa.Room.Tokens.{Bucket}
use echa.Room.State.{
  Connection, ConnectionAttachment, Room, connection_is, room_lifecycle_state, accepts_drawing,
  RoomLifecycleState,
}
use echa.Room.Persist.{
  accepted, rejected, set_rate, set_last_client_seq, update_connection, persist_on, persist_in,
  persist_event,
}
use echa.Room.Persist.Outcome.{Stored, InOrder, charge, charged, persist_event-Outcome}
use echa.Room.Persist.Invariant.{RoomInv, charged-RoomInv, InOrder-charged, admitted-total}

module _ (byte_length : RoomStrokeEvent → ℕ) (a : ConnectionAttachment) (event : ClientStrokeEvent)
    (now : ℕ) where
  on-total :
      (c : Connection) (r : Room)
      → RoomInv r
      → HasPoints event.op
      → find? (connection_is a.connection_id) r.connections ≡ some c
      → byte_length (from_client event) ≤ max_frame_bytes
      → persist_on byte_length c a event now r ≢ none
  unfolding persist_on
  on-total c r inv points found fits h = elim (Bool-cases (same c.actor a.actor)) [
    | inr other ↦ ground arith
    | inl owned ↦ elim (Bool-cases (ltb event.client_seq (c.last_client_seq + 1))) [
      | inl early ↦ ground arith
      | inr not_early ↦ elim (Bool-cases (ltb (c.last_client_seq + 1) event.client_seq)) [
        | inl late ↦ ground arith
        | inr not_late ↦ elim (Bool-cases (charge byte_length a event now c).1) [
          | inr empty ↦ ground arith
          | inl token ↦
              let o : InOrder byte_length a event now r c = record {
                found = found;
                owned = owned;
                next = ground arith;
              } in
              let (c', found', next) = InOrder-charged byte_length a event now c r o in
              admitted-total byte_length a event now c' (charged byte_length a event now c r)
                (charged-RoomInv byte_length a event now c r inv) points found' next fits
                (rw (owned, not_early, not_late, token) at h)
        ]
      ]
    ]
  ]

  -- In a consistent room whose lifecycle row can be read, `persistEvent` does not throw on an event that
  -- has a point where it needs one and whose encoding fits a frame: no insertion meets a constraint of
  -- the tables.
  pub persist_event-total :
      (r : Room)
      → RoomInv r
      → HasPoints event.op
      → room_lifecycle_state r.lifecycle ≢ none
      → byte_length (from_client event) ≤ max_frame_bytes
      → persist_event byte_length a event now r ≢ none
  unfolding persist_event persist_in
  persist_event-total r inv points consistent fits h =
      elim (Option-cases (room_lifecycle_state r.lifecycle)) [
        | inl e ↦ consistent e
        | inr (lifecycle, e) ↦
            elim (Option-cases (find? (connection_is a.connection_id) r.connections)) [
              | inl unknown ↦ ground arith
              | inr (c, found) ↦ ground (arith, on-total c r inv points found fits)
            ]
      ]

  -- What `persistEvent` leaves alone when it rejects: everything but the bucket of the connection.
  pub persist_event_rejected :
      (r : Room) {r' : Room} {why : RejectMessage}
      → persist_event byte_length a event now r ≡ some (r', rejected why)
      → (why.client_seq ≡ event.client_seq)
        × ((r' ≡ r)
            ⊎ ((bucket : Bucket) × (r' ≡ update_connection a.connection_id (set_rate bucket) r)))
  persist_event_rejected r {r'} {why} h = elim (persist_event-Outcome byte_length a event now r h) [
    | inl (e, (code, answer)) ↦ (ground arith, inl e)
    | inr (c, o, inl (e, (code, answer))) ↦ (ground arith, inr (_, e))
    | inr (c, o, inr (token, s)) ↦ absurd (let x : ⊥ = cc s.answer in x)
  ]

  -- The row that `persistEvent` adds to the log of the room `r`.
  abbrev pub new_row : Room → StoredEvent
  new_row r = record {
    room_seq = suc r.log.last_seq;
    actor = a.actor;
    connection_id = a.connection_id;
    client_seq = event.client_seq;
    event = from_client event;
    payload_bytes = byte_length (from_client event);
    accepted_at = now;
  }

  -- What an accepted event has met, on the connection `c`, and what it has done.
  pub record Advanced (r r' : Room) (m : AcceptedStrokeEvent) (c : Connection) : Type 0 where
    pub found : find? (connection_is a.connection_id) r.connections ≡ some c
    pub owned : same c.actor a.actor ≡ true
    pub next : event.client_seq ≡ c.last_client_seq + 1
    pub numbered : m.room_seq ≡ suc r.log.last_seq
    pub seq : r'.log.last_seq ≡ suc r.log.last_seq
    pub events : r'.log.events ≡ new_row r ∷ r.log.events
    pub advanced :
        find? (connection_is a.connection_id) r'.connections
        ≡ some
            (set_last_client_seq event.client_seq (set_rate (charge byte_length a event now c).0 c))
    pub lifecycle : r'.lifecycle ≡ r.lifecycle

  Stored-Advanced :
      (r r' : Room) (m : AcceptedStrokeEvent) (c : Connection)
      → InOrder byte_length a event now r c
      → Stored byte_length a event now (charged byte_length a event now c r) r' (accepted m)
      → Advanced r r' m c
  Stored-Advanced r r' m c o s =
      let b = (charge byte_length a event now c).0 in
      let before : StrokeLog = record r.log { strokes = s.strokes } in
      let added =
        insert_event-add byte_length a.actor a.connection_id event.client_seq (from_client event)
          now before s.inserted in
      let seq : s.log.last_seq ≡ suc r.log.last_seq = ap (λ (l : StrokeLog). l.last_seq) added in
      let rows : s.log.events ≡ new_row r ∷ r.log.events = ap (λ (l : StrokeLog). l.events) added in
      let same_log : r'.log ≡ s.log = ap (λ (x : Room). x.log) s.room in
      let charged_row =
        find?-update_self (connection_is a.connection_id) (set_rate b) r.connections c (λ x. refl)
          o.found in
      let moved_row =
        find?-update_self (connection_is a.connection_id) (set_last_client_seq event.client_seq)
          (charged byte_length a event now c r).connections (set_rate b c) (λ x. refl)
          charged_row in
      record {
        found = o.found;
        owned = o.owned;
        next = o.next;
        numbered = ground (arith, s.answer);
        seq = rw same_log seq;
        events = rw same_log rows;
        advanced = rw (ap (λ (x : Room). x.connections) s.room) moved_row;
        lifecycle = ap (λ (x : Room). x.lifecycle) s.room;
      }

  -- An event that `persistEvent` accepts is the next one of a known connection of its actor, and is
  -- that connection's last one afterwards; its number in the room follows the last one given; the
  -- log gains its row on top of the rows that were there; the room's lifecycle stays.
  pub persist_event_accepted :
      (r : Room) {r' : Room} {m : AcceptedStrokeEvent}
      → persist_event byte_length a event now r ≡ some (r', accepted m)
      → (c : Connection) × Advanced r r' m c
  persist_event_accepted r {r'} {m} h = elim (persist_event-Outcome byte_length a event now r h) [
    | inl (e, (code, answer)) ↦ absurd (let x : ⊥ = cc in x)
    | inr (c, o, inl (e, (code, answer))) ↦ absurd (let x : ⊥ = cc in x)
    | inr (c, o, inr (token, s)) ↦ (c, Stored-Advanced r r' m c o s)
  ]

-- Only a room that is active or idle accepts an event.
pub persist_event-accepts_drawing :
    (byte_length : RoomStrokeEvent → ℕ) (a : ConnectionAttachment) (event : ClientStrokeEvent)
    (now : ℕ) (r : Room) {r' : Room} {m : AcceptedStrokeEvent}
    → persist_event byte_length a event now r ≡ some (r', accepted m)
    → (lifecycle : RoomLifecycleState) × (room_lifecycle_state r.lifecycle ≡ some lifecycle)
      × (accepts_drawing lifecycle ≡ true)
unfolding persist_event persist_in
persist_event-accepts_drawing byte_length a event now r h =
    elim (Option-cases (room_lifecycle_state r.lifecycle)) [
      | inl e ↦ absurd (let x : ⊥ = ground arith in x)
      | inr (lifecycle, e) ↦ (lifecycle, e, ground arith)
    ]

-- Delivery is exactly once: when a client that missed the answer sends an accepted event again, at
-- whatever time, it is rejected as a duplicate and the room stays as it is.
pub persist_event_again :
    (byte_length : RoomStrokeEvent → ℕ) (a : ConnectionAttachment) (event : ClientStrokeEvent)
    (now later : ℕ) (r : Room) {r' : Room} {m : AcceptedStrokeEvent}
    → persist_event byte_length a event now r ≡ some (r', accepted m)
    → persist_event byte_length a event later r'
      ≡ some (r', rejected (record { client_seq = event.client_seq; code = duplicate }))
unfolding persist_event persist_in persist_on
persist_event_again byte_length a event now later r {r'} h =
    let (c, done) = persist_event_accepted byte_length a event now r h in
    let (lifecycle, state, drawing) = persist_event-accepts_drawing byte_length a event now r h in
    let state' : room_lifecycle_state r'.lifecycle ≡ some lifecycle = rw done.lifecycle state in
    let after =
      set_last_client_seq event.client_seq (set_rate (charge byte_length a event now c).0 c) in
    let sent_before : persist_on byte_length after a event later r'
        ≡ some (r', rejected (record { client_seq = event.client_seq; code = duplicate })) =
      ground (arith, done.owned) in
    ground (arith, done.advanced)
