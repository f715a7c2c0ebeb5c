-- ===== src/Room/History.antt =====
-- apps/realtime/src/drawing-room.ts: the drawing log over any history of client events and of
-- calls of `finalizeActiveStrokes`; the alarm ends strokes that took too long by a loop of its own,
-- which is not a step of it.
pub mod Runs
use echa.Prelude.{
  ℕ, suc, ◌+◌, ◌≤◌, ◌<◌, String, Bool, true, false, ◌≡◌, ◌≢◌, refl, ap, sym, ◌∙◌, ◌⊎◌, inl, inr,
  Option, none, some, List, [], ◌∷◌, map, arith, count, find?, if◌then◌else◌, Option-cases,
  Bool-cases, same, ◌&&◌, All, eq_iff, not, ◌||◌, leb, ltb, is_some,
}
use echa.Protocol.Limits.{max_room_events, room_activity_event_limit}
use echa.Protocol.Messages.{
  StrokeOp, begin, append, end, cancel, ClientStrokeEvent, RoomStrokeEvent, from_client,
  AcceptedStrokeEvent,
}
use echa.Room.Log.{
  Stroke, StoredEvent, StrokeLog, is_active, stroke_is, active_of, wanted, event_is, Applied,
  applied, apply_stroke_lifecycle, finalize_active_strokes,
}
use echa.Room.Log.Strokes.{StrokesInv}
use echa.Room.Log.Events.{EventsInv, insert_event-add}
use echa.Room.Log.Finalize.{ended_at, finalize_active_strokes_lem}
use echa.Room.State.{Connection, ConnectionAttachment, Room, connection_is}
use echa.Room.Persist.{Reply, over_activity_limit, persist_event}
use echa.Room.Persist.Outcome.{Stored, charged, persist_event-Outcome}
use echa.Room.Persist.Invariant.{RoomInv, charged-RoomInv, persist_event-RoomInv}
use echa.Room.Activity.{active_stroke}
use echa.Room.Activity.Growth.{opened, closed, apply_stroke_lifecycle_count}

-- The events and the strokes that can still end fit the limit and `k` strokes more.
pub record IsBounded (k : ℕ) (r : Room) : Type 0 where
  pub active : count active_stroke r.log.strokes ≤ k
  pub total : r.log.accepted + count active_stroke r.log.strokes ≤ max_room_events + k

room_left :
    (op : StrokeOp) (bytes : ℕ) (r : Room)
    → over_activity_limit op bytes r ≡ false
    → ((closed op ≡ 1) × (opened op ≡ 0)) ⊎ (r.log.accepted < max_room_events)
unfolding over_activity_limit
room_left (begin style point) bytes r h = inr (ground arith)
room_left (append points) bytes r h = inr (ground arith)
room_left end bytes r h = inl (refl, refl)
room_left cancel bytes r h = inl (refl, refl)

module _ (byte_length : RoomStrokeEvent → ℕ) where
  Stored-IsBounded :
      (a : ConnectionAttachment) (event : ClientStrokeEvent) (now k : ℕ) (r r' : Room)
      (reply : Reply)
      → RoomInv r
      → IsBounded k r
      → count active_stroke r'.log.strokes ≤ k
      → Stored byte_length a event now r r' reply
      → IsBounded k r'
  Stored-IsBounded a event now k r r' reply inv b few s =
      let before : StrokeLog = record r.log { strokes = s.strokes } in
      let added =
        insert_event-add byte_length a.actor a.connection_id event.client_seq (from_client event)
          now before s.inserted in
      let kept : s.log.strokes ≡ s.strokes = ap (λ (l : StrokeLog). l.strokes) added in
      let grown : s.log.accepted ≡ r.log.accepted + 1 = ap (λ (l : StrokeLog). l.accepted) added in
      let same_log : r'.log ≡ s.log = ap (λ (x : Room). x.log) s.room in
      let metric : r'.log.accepted ≡ r.log.accepted + 1 =
        ap (λ (l : StrokeLog). l.accepted) same_log ∙ grown in
      let rows : r'.log.strokes ≡ s.strokes = ap (λ (l : StrokeLog). l.strokes) same_log ∙ kept in
      let balance =
        apply_stroke_lifecycle_count a.actor event now r.log.strokes inv.strokes s.lived in
      let now_active : count active_stroke r'.log.strokes ≡ count active_stroke s.strokes =
        ap (count active_stroke) rows in
      record {
        active = few;
        total = elim (room_left event.op (byte_length (from_client event)) r s.within) [
          | inl (closes, opens) ↦ omega (arith, balance)
          | inr room ↦ omega arith
        ];
      }

  -- `persistEvent` keeps the bound while no more than `k` strokes are active.
  persist_event-IsBounded :
      (a : ConnectionAttachment) (event : ClientStrokeEvent) (now k : ℕ) (r : Room) {r' : Room}
      {reply : Reply}
      → RoomInv r
      → IsBounded k r
      → count active_stroke r'.log.strokes ≤ k
      → persist_event byte_length a event now r ≡ some (r', reply)
      → IsBounded k r'
  persist_event-IsBounded a event now k r {r'} {reply} inv b few h =
      elim (persist_event-Outcome byte_length a event now r h) [
        | inl (e, no_reply) ↦ rw e b
        | inr (c, o, inl (e, no_reply)) ↦ rw e (record { active = b.active; total = b.total })
        | inr (c, o, inr (token, s)) ↦
            Stored-IsBounded a event now k (charged byte_length a event now c r) r' reply
              (charged-RoomInv byte_length a event now c r inv)
              (record { active = b.active; total = b.total }) few s
      ]

-- Rows that end leave the active ones.
count-ended :
    (actor : Option String) (now : ℕ) (xs : List Stroke)
    → count active_stroke (map (λ s. if wanted actor s then ended_at now s else s) xs)
        + count (wanted actor) xs
      ≡ count active_stroke xs
count-ended none now [] = refl
count-ended (some a) now [] = refl
count-ended none now (x ∷ xs) = ground (arith, count-ended none now xs)
count-ended (some a) now (x ∷ xs) = ground (arith, count-ended (some a) now xs)
