-- ===== src/Room/Discard/Effects.antt =====
-- apps/realtime/src/drawing-room.ts: the connection, the strokes and the violations once an event is
-- not persisted.
use echa.Prelude.{
  ℕ, suc, ◌+◌, String, true, false, ◌≡◌, ◌≢◌, refl, ◌∙◌, Option, none, some, [], length, count,
  find?, update, same, arith, ltb, bind_of, find?-update_self, inl, inr, Bool-cases,
}
use echa.Protocol.Messages.{
  ClientStrokeEvent, RoomStrokeEvent, RejectCode, rate_limited, service_emergency_stop,
  unauthorized, duplicate, out_of_order,
}
use echa.Room.Log.{wanted}
use echa.Room.Log.Events.{EventsInv}
use echa.Room.Log.Finalize.{HasUniqueIds, IsConsecutive, finalize_active_strokes_lem}
use echa.Room.State.{Connection, ConnectionAttachment, Room, connection_is}
use echa.Room.Persist.{set_last_client_seq, update_connection, discard_ordered_event}
use echa.Room.Abuse.{AbuseTable, record_rate_abuse}
use echa.Room.Discard.{Discarded, cut_off, reject_rate_limited_drawing, stop_drawing}

-- An event whose number is the next one of its connection.
pub record IsNext (a : ConnectionAttachment) (event : ClientStrokeEvent) (r : Room) : Type 0 where
  pub connection : Connection
  pub found : find? (connection_is a.connection_id) r.connections ≡ some connection
  pub mine : same connection.actor a.actor ≡ true
  pub next : event.client_seq ≡ connection.last_client_seq + 1

discard_next :
    (a : ConnectionAttachment) (event : ClientStrokeEvent) (code : RejectCode) (r : Room)
    → IsNext a event r
    → discard_ordered_event a event code r
      ≡ (update_connection a.connection_id (set_last_client_seq event.client_seq) r, code)
unfolding discard_ordered_event
discard_next a event code r n = ground (arith, n.found, n.mine, n.next)

-- What was ended of the strokes and how the connection stands.
pub record UsedUp (actor : Option String) (a : ConnectionAttachment) (event : ClientStrokeEvent)
    (r : Room) (d : Discarded) (code : RejectCode) : Type 0 where
  pub rejection : d.rejection ≡ code
  pub after :
      (c : Connection) × (find? (connection_is a.connection_id) d.room.connections ≡ some c)
      × (c.last_client_seq ≡ event.client_seq)
  pub ended : count (wanted actor) d.room.log.strokes ≡ 0
  pub announced : length d.finalized ≡ count (wanted actor) r.log.strokes
  pub numbered : IsConsecutive (suc r.log.last_seq) d.finalized
  pub consistent : EventsInv r.log → EventsInv d.room.log

after_discard :
    (a : ConnectionAttachment) (event : ClientStrokeEvent) (r : Room)
    → IsNext a event r
    → (c : Connection) × (find? (connection_is a.connection_id) (
          update
            (connection_is a.connection_id)
            (set_last_client_seq event.client_seq)
            r.connections)
        ≡ some c)
      × (c.last_client_seq ≡ event.client_seq)
after_discard a event r n = (
  set_last_client_seq event.client_seq n.connection,
  find?-update_self (connection_is a.connection_id) (set_last_client_seq event.client_seq)
      r.connections n.connection (λ x. refl) n.found,
  refl,
)

module _ (byte_length : RoomStrokeEvent → ℕ) (a : ConnectionAttachment) (event : ClientStrokeEvent)
    (now : ℕ) (r : Room) (abuse : AbuseTable) where
  -- In a room with unique keys of its strokes, an event that is the next of its connection and meets
  -- the rate limit is used up, so that the one after it is in order; its actor's strokes end, and the
  -- violation is recorded, which decides whether the socket is closed.
  pub reject_rate_limited_drawing_lem :
      HasUniqueIds r.log.strokes
      → IsNext a event r
      → (d : Discarded) × (reject_rate_limited_drawing byte_length a event now r abuse ≡ some d)
        × UsedUp (some a.actor) a event r d rate_limited
        × (d.abuse ≡ (record_rate_abuse a.actor now abuse).0)
        × (d.disconnect ≡ (record_rate_abuse a.actor now abuse).1.disconnect)
  unfolding reject_rate_limited_drawing cut_off
  reject_rate_limited_drawing_lem u n =
      let r' = update_connection a.connection_id (set_last_client_seq event.client_seq) r in
      let used = discard_next a event rate_limited r n in
      let (l', out, run, rows, gone, many, metric, numbers, keeps, others) =
        finalize_active_strokes_lem byte_length "server_rate_abuse" now (some a.actor) r.log u in
      (
        record {
          room = record r' { log = l' };
          abuse = (record_rate_abuse a.actor now abuse).0;
          rejection = rate_limited;
          finalized = out;
          disconnect = (record_rate_abuse a.actor now abuse).1.disconnect;
        },
        rw used (bind_of _ run),
        record {
          rejection = refl;
          after = after_discard a event r n;
          ended = gone;
          announced = many;
          numbered = numbers;
          consistent = keeps;
        },
        refl,
        refl,
      )

  -- While drawing is stopped for the whole service, in a room with unique keys of its strokes, an
  -- event that is the next of its connection is used up, and every stroke of the room is ended.
  stop_drawing_lem :
      HasUniqueIds r.log.strokes
      → IsNext a event r
      → (d : Discarded) × (stop_drawing byte_length a event now r abuse ≡ some d)
        × UsedUp none a event r d service_emergency_stop
        × (d.abuse ≡ abuse)
  unfolding stop_drawing
  stop_drawing_lem u n =
      let (l', out, run, rows, gone, many, metric, numbers, keeps, others) =
        finalize_active_strokes_lem byte_length "server_emergency_control" now none r.log u in
      let r1 : Room = record r { log = l' } in
      let still : IsNext a event r1 = record {
        connection = n.connection;
        found = n.found;
        mine = n.mine;
        next = n.next;
      } in
      let used = discard_next a event service_emergency_stop r1 still in
      (
        record {
          room = update_connection a.connection_id (set_last_client_seq event.client_seq) r1;
          abuse = abuse;
          rejection = service_emergency_stop;
          finalized = out;
          disconnect = false;
        },
        bind_of _ run ∙ (rw used refl),
        record {
          rejection = refl;
          after = after_discard a event r n;
          ended = gone;
          announced = many;
          numbered = numbers;
          consistent = keeps;
        },
        refl,
      )

-- An event that is not the next of its registered connection, when it meets the rate limit, is
-- rejected with nothing changed and no violation recorded.
reject_rate_limited_drawing_unordered :
    (byte_length : RoomStrokeEvent → ℕ) (a : ConnectionAttachment) (event : ClientStrokeEvent)
    (now : ℕ) (r : Room) (abuse : AbuseTable) (c : Connection)
    → find? (connection_is a.connection_id) r.connections ≡ some c
    → event.client_seq ≢ c.last_client_seq + 1
    → (d : Discarded) × (reject_rate_limited_drawing byte_length a event now r abuse ≡ some d)
      × (d.room ≡ r)
      × (d.abuse ≡ abuse)
      × (d.finalized ≡ [])
      × (d.disconnect ≡ false)
      × (d.rejection ≢ rate_limited)
unfolding reject_rate_limited_drawing discard_ordered_event
reject_rate_limited_drawing_unordered byte_length a event now r abuse c found other =
    elim (Bool-cases (same c.actor a.actor)) [
      | inr e ↦ (plain unauthorized, ground arith, refl, refl, refl, refl, λ x. cc x)
      | inl mine ↦ elim (Bool-cases (ltb event.client_seq (c.last_client_seq + 1))) [
        | inl e ↦ (plain duplicate, ground arith, refl, refl, refl, refl, λ x. cc x)
        | inr e ↦ (plain out_of_order, ground arith, refl, refl, refl, refl, λ x. cc x)
      ]
    ]
  where
    plain : RejectCode → Discarded
    plain code = record {
      room = r;
      abuse = abuse;
      rejection = code;
      finalized = [];
      disconnect = false;
    }
