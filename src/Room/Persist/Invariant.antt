-- ===== src/Room/Persist/Invariant.antt =====
-- apps/realtime/src/drawing-room.ts: what `persistEvent` keeps, and its insertions under the
-- constraints of the tables.
use echa.Prelude.{◌≤◌}
use echa.Protocol.Limits.{max_frame_bytes}
use echa.Prelude.{
  ℕ, ◌+◌, ◌<◌, String, true, false, ◌≡◌, ◌≢◌, refl, ap, ◌⊎◌, inl, inr, none, some, List, [], ◌∷◌,
  arith, same, find?, Option-cases, Bool-cases, update, eq_iff, count, find?-update_self,
}
use echa.Protocol.Messages.{ClientStrokeEvent, RoomStrokeEvent, from_client}
use echa.Room.Log.{StoredEvent, StrokeLog, applied, refused, apply_stroke_lifecycle, event_is}
use echa.Room.Log.Strokes.{
  StrokesInv, HasPoints, apply_stroke_lifecycle-StrokesInv, apply_stroke_lifecycle-total,
}
use echa.Room.Log.Events.{EventsInv, insert_event-EventsInv, insert_event-add, insert_event_lem}
use echa.Room.State.{Connection, ConnectionAttachment, Room, connection_is}
use echa.Room.Persist.{Reply, set_rate, set_last_client_seq, persist_admitted, persist_event}
use echa.Room.Persist.Outcome.{Stored, InOrder, charge, charged, persist_event-Outcome}

-- No stored event of a connection has a number past the connection's last one.
abbrev pub IsOrdered : List Connection → List StoredEvent → Type 0
IsOrdered connections events =
    (id : String) (c : Connection) (n : ℕ)
    → find? (connection_is id) connections ≡ some c
    → c.last_client_seq < n
    → count (event_is id n) events ≡ 0

pub record RoomInv (r : Room) : Type 0 where
  pub strokes : StrokesInv r.log.strokes
  pub events : EventsInv r.log
  pub ordered : IsOrdered r.connections r.log.events

-- The row that a search finds after an update by key.
find?-update :
    (id j : String) (f : Connection → Connection) (cs : List Connection) (c : Connection)
    → ((x : Connection) → (f x).connection_id ≡ x.connection_id)
    → find? (connection_is j) (update (connection_is id) f cs) ≡ some c
    → (old : Connection) × (find? (connection_is j) cs ≡ some old)
      × (((same id j ≡ true) × (c ≡ f old)) ⊎ ((same id j ≡ false) × (c ≡ old)))
find?-update id j f [] c keep h = cc
find?-update id j f (x ∷ xs) c keep h = elim (Bool-cases (connection_is j x)) [
  | inl here ↦ (
    x,
    rw here,
    elim (Bool-cases (same id j)) [
      | inl e ↦ inl (
        e,
        ground (arith, keep x, eq_iff x.connection_id j, eq_iff id j, eq_iff x.connection_id id),
      )
      | inr e ↦ inr (
        e,
        ground (arith, keep x, eq_iff x.connection_id j, eq_iff id j, eq_iff x.connection_id id),
      )
    ],
  )
  | inr away ↦
      let (old, found, case) = find?-update id j f xs c keep (ground (arith, keep x)) in
      (old, ground arith, case)
]

module _ (byte_length : RoomStrokeEvent → ℕ) (a : ConnectionAttachment) (event : ClientStrokeEvent)
    (now : ℕ) where
  pub charged-RoomInv :
      (c : Connection) (r : Room) → RoomInv r → RoomInv (charged byte_length a event now c r)
  charged-RoomInv c r inv = record {
    strokes = inv.strokes;
    events = inv.events;
    ordered = λ id d n found past.
        let (old, before, case) =
          find?-update a.connection_id id (set_rate (charge byte_length a event now c).0)
            r.connections d (λ x. refl) found in
        inv.ordered id old n before (ground arith);
  }

  -- The charged bucket leaves the connection's place in its order.
  pub InOrder-charged :
      (c : Connection) (r : Room)
      → InOrder byte_length a event now r c
      → (c' : Connection) × (find?
            (connection_is a.connection_id)
            (charged byte_length a event now c r).connections
          ≡ some c')
        × (event.client_seq ≡ c'.last_client_seq + 1)
  InOrder-charged c r o = (
    set_rate (charge byte_length a event now c).0 c,
    find?-update_self (connection_is a.connection_id)
        (set_rate (charge byte_length a event now c).0) r.connections c (λ x. refl) o.found,
    o.next,
  )

  Stored-IsOrdered :
      (r r' : Room) (c : Connection) (reply : Reply)
      → RoomInv r
      → find? (connection_is a.connection_id) r.connections ≡ some c
      → event.client_seq ≡ c.last_client_seq + 1
      → (s : Stored byte_length a event now r r' reply) → IsOrdered r'.connections s.log.events
  Stored-IsOrdered r r' c reply inv found next s id d n at past =
      let added =
        insert_event-add byte_length a.actor a.connection_id event.client_seq (from_client event)
          now (record r.log { strokes = s.strokes }) s.inserted in
      let moved : find? (connection_is id) (
            update (connection_is a.connection_id) (set_last_client_seq event.client_seq)
              r.connections)
          ≡ some d =
        ground (arith, s.room) in
      let (old, before, case) =
        find?-update a.connection_id id (set_last_client_seq event.client_seq) r.connections d
          (λ x. refl) moved in
      let counted : count (event_is id n) r.log.events ≡ 0 =
        inv.ordered id old n before (elim case [
          | inl (e, advanced) ↦
              let key : a.connection_id ≡ id = (eq_iff a.connection_id id).0 e in
              let same_row : old ≡ c = ground arith in ground arith
          | inr (e, stays) ↦ ground arith
        ]) in
      rw added (elim case [ inl (e, moved') ↦ ground arith | inr (e, stays) ↦ ground arith ])

  Stored-RoomInv :
      (r r' : Room) (c : Connection) (reply : Reply)
      → RoomInv r
      → find? (connection_is a.connection_id) r.connections ≡ some c
      → event.client_seq ≡ c.last_client_seq + 1
      → Stored byte_length a event now r r' reply
      → RoomInv r'
  Stored-RoomInv r r' c reply inv found next s =
      let before : StrokeLog = record r.log { strokes = s.strokes } in
      let before-inv : EventsInv before = record {
        seqs_unique = inv.events.seqs_unique;
        numbered = inv.events.numbered;
        counted = inv.events.counted;
      } in
      let added =
        insert_event-add byte_length a.actor a.connection_id event.client_seq (from_client event)
          now before s.inserted in
      let kept : s.log.strokes ≡ s.strokes = ap (λ (l : StrokeLog). l.strokes) added in
      let same_log : r'.log ≡ s.log = ap (λ (x : Room). x.log) s.room in
      record {
        strokes =
            rw (same_log, kept)
              (apply_stroke_lifecycle-StrokesInv a.actor event now r.log.strokes inv.strokes
                s.lived);
        events = rw same_log (
            insert_event-EventsInv byte_length a.actor a.connection_id event.client_seq
              (from_client event) now before before-inv s.inserted);
        ordered = λ id d n at past.
            rw same_log (Stored-IsOrdered r r' c reply inv found next s id d n at past);
      }

  -- From a consistent room, every return of `persistEvent` leaves a consistent room: unique keys
  -- of strokes and events, one active stroke for each actor, the limit on points, numbers in turn
  -- that the metric counts, and no event of a connection past its last number.
  pub persist_event-RoomInv :
      (r : Room) {r' : Room} {reply : Reply}
      → RoomInv r
      → persist_event byte_length a event now r ≡ some (r', reply)
      → RoomInv r'
  persist_event-RoomInv r {r'} {reply} inv h =
      elim (persist_event-Outcome byte_length a event now r h) [
        | inl (e, no_reply) ↦ rw e inv
        | inr (c, o, inl (e, no_reply)) ↦ rw e (charged-RoomInv c r inv)
        | inr (c, o, inr (token, s)) ↦
            let (c', found, next) = InOrder-charged c r o in
            Stored-RoomInv (charged byte_length a event now c r) r' c' reply
              (charged-RoomInv c r inv) found next s
      ]

  pub admitted-total :
      (c : Connection) (r : Room)
      → RoomInv r
      → HasPoints event.op
      → find? (connection_is a.connection_id) r.connections ≡ some c
      → event.client_seq ≡ c.last_client_seq + 1
      → byte_length (from_client event) ≤ max_frame_bytes
      → persist_admitted byte_length a event now r ≢ none
  unfolding persist_admitted
  admitted-total c r inv points found next fits h =
      elim (Option-cases (apply_stroke_lifecycle a.actor event now r.log.strokes)) [
        | inl e ↦ apply_stroke_lifecycle-total a.actor event now r.log.strokes points e
        | inr (refused code, e) ↦ ground arith
        | inr (applied strokes, e) ↦
            let free = inv.ordered a.connection_id c event.client_seq found (omega arith) in
            let inserts =
              insert_event_lem byte_length a.actor a.connection_id event.client_seq
                (from_client event) now (record r.log { strokes = strokes }) free in
            ground arith
      ]
