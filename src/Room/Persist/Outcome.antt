-- ===== src/Room/Persist/Outcome.antt =====
-- apps/realtime/src/drawing-room.ts: the ways in which `persistEvent` returns.
use echa.Prelude.{
  ℕ, ◌+◌, Bool, true, false, ◌≡◌, ◌⊎◌, inl, inr, none, some, List, arith, same, find?, Option-cases,
  Bool-cases, ltb,
}
use echa.Protocol.Limits.{max_frame_bytes}
use echa.Protocol.Messages.{
  ClientStrokeEvent, RoomStrokeEvent, from_client, RejectCode, unauthorized, duplicate,
  out_of_order, room_limit_reached, room_not_active, rate_limited,
}
use echa.Room.Log.{
  Stroke, StrokeLog, Applied, applied, refused, apply_stroke_lifecycle, insert_event,
}
use echa.Protocol.Limits.{event_rate_burst, event_rate_per_second}
use echa.Room.Tokens.{Bucket, take_token}
use echa.Room.State.{
  Connection, ConnectionAttachment, Room, connection_is, room_lifecycle_state, accepts_drawing,
  RoomLifecycleState,
}
use echa.Room.Persist.{
  reject, Reply, accepted, rejected, set_rate, set_last_client_seq, update_connection,
  over_activity_limit, persist_admitted, persist_on, persist_in, persist_event,
}

module _ (byte_length : RoomStrokeEvent → ℕ) (a : ConnectionAttachment) (event : ClientStrokeEvent)
    (now : ℕ) where
  -- A rejection with the event's number.
  abbrev pub Refused : Reply → Type 0
  Refused reply =
      (code : RejectCode) × (reply
        ≡ rejected (record { client_seq = event.client_seq; code = code }))

  -- The room after an event was stored, from the room `r` whose bucket has been charged.
  pub record Stored (r r' : Room) (reply : Reply) : Type 0 where
    pub strokes : List Stroke
    pub log : StrokeLog
    pub within : over_activity_limit event.op (byte_length (from_client event)) r ≡ false
    pub lived : apply_stroke_lifecycle a.actor event now r.log.strokes ≡ some (applied strokes)
    pub inserted :
        insert_event byte_length a.actor a.connection_id event.client_seq
          (from_client event)
          now
          (record r.log { strokes = strokes })
        ≡ some log
    pub room :
        r'
        ≡ update_connection a.connection_id
            (set_last_client_seq event.client_seq)
            (record r { log = log })
    pub answer :
        reply
        ≡ accepted (record {
          room_seq = log.last_seq;
          actor = a.actor;
          connection_id = a.connection_id;
          accepted_at = now;
          event = from_client event;
        })

  -- The connection is known, belongs to the actor, and the event is the next in its order.
  pub record InOrder (r : Room) (c : Connection) : Type 0 where
    pub found : find? (connection_is a.connection_id) r.connections ≡ some c
    pub owned : same c.actor a.actor ≡ true
    pub next : event.client_seq ≡ c.last_client_seq + 1

  abbrev pub charge : Connection → Bucket × Bool
  charge c = take_token event_rate_burst event_rate_per_second c.rate now

  -- The room once the bucket has its new level.
  abbrev pub charged : Connection → Room → Room
  charged c r = update_connection a.connection_id (set_rate (charge c).0) r

  -- Either nothing changed; or only the bucket did; or it had a token and the event was stored.
  abbrev pub Outcome : Room → Room → Reply → Type 0
  Outcome r r' reply =
      ((r' ≡ r) × Refused reply)
      ⊎ ((c : Connection) × InOrder r c
          × (((r' ≡ charged c r) × Refused reply)
              ⊎ (((charge c).1 ≡ true) × Stored (charged c r) r' reply)))

  reject_lem :
      (code : RejectCode) (r : Room) {r' : Room} {reply : Reply}
      → reject byte_length code event r ≡ some (r', reply)
      → (r' ≡ r) × Refused reply
  reject_lem code r h = (ground arith, (code, ground arith))

  admitted_result :
      (result : Applied) (r : Room) {r' : Room} {reply : Reply}
      → ltb max_frame_bytes (byte_length (from_client event)) ≡ false
      → over_activity_limit event.op (byte_length (from_client event)) r ≡ false
      → apply_stroke_lifecycle a.actor event now r.log.strokes ≡ some result
      → persist_admitted byte_length a event now r ≡ some (r', reply)
      → ((r' ≡ r) × Refused reply) ⊎ Stored r r' reply
  unfolding persist_admitted
  admitted_result (refused code) r fits within e h =
      inl (reject_lem code r (rw (fits, within, e) at h))
  admitted_result (applied strokes) r fits within e h =
      elim (Option-cases (
        insert_event byte_length a.actor a.connection_id event.client_seq (from_client event) now
          (record r.log { strokes = strokes }))) [
            | inl f ↦ absurd (let x : ⊥ = ground arith in x)
            | inr (log, f) ↦ inr (record {
              strokes = strokes;
              log = log;
              within = within;
              lived = e;
              inserted = f;
              room = ground arith;
              answer = ground arith;
            })
          ]

  persist_admitted-Outcome :
      (r : Room) {r' : Room} {reply : Reply}
      → persist_admitted byte_length a event now r ≡ some (r', reply)
      → ((r' ≡ r) × Refused reply) ⊎ Stored r r' reply
  persist_admitted-Outcome r h =
      elim (Bool-cases (ltb max_frame_bytes (byte_length (from_client event)))) [
        | inl large ↦ absurd (too_large r large h)
        | inr fits ↦
            elim (Bool-cases (over_activity_limit event.op (byte_length (from_client event)) r)) [
              | inl over ↦ inl (
                  reject_lem room_limit_reached r (unfold persist_admitted in rw (fits, over) at h))
              | inr within ↦
                  elim (Option-cases (apply_stroke_lifecycle a.actor event now r.log.strokes)) [
                    | inl e ↦ absurd (no_result r fits within e h)
                    | inr (result, e) ↦ admitted_result result r fits within e h
                  ]
            ]
      ]
    where
      too_large :
          (r : Room) {r' : Room} {reply : Reply}
          → ltb max_frame_bytes (byte_length (from_client event)) ≡ true
          → persist_admitted byte_length a event now r ≡ some (r', reply)
          → ⊥
      too_large r large h = unfold persist_admitted in ground arith

      no_result :
          (r : Room) {r' : Room} {reply : Reply}
          → ltb max_frame_bytes (byte_length (from_client event)) ≡ false
          → over_activity_limit event.op (byte_length (from_client event)) r ≡ false
          → apply_stroke_lifecycle a.actor event now r.log.strokes ≡ none
          → persist_admitted byte_length a event now r ≡ some (r', reply)
          → ⊥
      no_result r fits within e h = unfold persist_admitted in ground arith

  persist_on-Outcome :
      (c : Connection) (r : Room) {r' : Room} {reply : Reply}
      → find? (connection_is a.connection_id) r.connections ≡ some c
      → persist_on byte_length c a event now r ≡ some (r', reply)
      → Outcome r r' reply
  unfolding persist_on
  persist_on-Outcome c r found h = elim (Bool-cases (same c.actor a.actor)) [
    | inr other ↦ inl (reject_lem unauthorized r (rw other at h))
    | inl owned ↦ elim (Bool-cases (ltb event.client_seq (c.last_client_seq + 1))) [
      | inl early ↦ inl (reject_lem duplicate r (rw (owned, early) at h))
      | inr not_early ↦ elim (Bool-cases (ltb (c.last_client_seq + 1) event.client_seq)) [
        | inl late ↦ inl (reject_lem out_of_order r (rw (owned, not_early, late) at h))
        | inr not_late ↦
            let in_order : InOrder r c = record {
              found = found;
              owned = owned;
              next = ground arith;
            } in
            elim (Bool-cases (charge c).1) [
              | inr empty ↦ inr (
                c,
                in_order,
                inl (
                    reject_lem rate_limited (charged c r)
                      (rw (owned, not_early, not_late, empty) at h)),
              )
              | inl token ↦
                  let admitted : persist_admitted byte_length a event now (charged c r)
                      ≡ some (_, _) =
                    rw (owned, not_early, not_late, token) at h in
                  elim (persist_admitted-Outcome (charged c r) admitted) [
                    | inl kept ↦ inr (c, in_order, inl kept)
                    | inr stored ↦ inr (c, in_order, inr (token, stored))
                  ]
            ]
      ]
    ]
  ]

  persist_in-Outcome :
      (lifecycle : RoomLifecycleState) (r : Room) {r' : Room} {reply : Reply}
      → persist_in byte_length lifecycle a event now r ≡ some (r', reply)
      → Outcome r r' reply
  unfolding persist_in
  persist_in-Outcome lifecycle r h = elim (Bool-cases (accepts_drawing lifecycle)) [
    | inr closed ↦ inl (reject_lem room_not_active r (rw closed at h))
    | inl open' ↦ elim (Option-cases (find? (connection_is a.connection_id) r.connections)) [
      | inl unknown ↦ inl (reject_lem unauthorized r (rw (open', unknown) at h))
      | inr (c, found) ↦ persist_on-Outcome c r found (rw (open', found) at h)
    ]
  ]

  -- Every return of `persistEvent` is one of the outcomes.
  pub persist_event-Outcome :
      (r : Room) {r' : Room} {reply : Reply}
      → persist_event byte_length a event now r ≡ some (r', reply)
      → Outcome r r' reply
  unfolding persist_event
  persist_event-Outcome r {r'} {reply} h = elim (Option-cases (room_lifecycle_state r.lifecycle)) [
    | inl e ↦ absurd (let x : ⊥ = ground arith in x)
    | inr (lifecycle, e) ↦
        let inside : persist_in byte_length lifecycle a event now r ≡ some (r', reply) =
          rw e at h in
        persist_in-Outcome lifecycle r inside
  ]
