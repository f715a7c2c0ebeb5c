-- ===== src/Room/History/Runs.antt =====
-- apps/realtime/src/drawing-room.ts: any run of `persistEvent` and `finalizeActiveStrokes` on one room.
use echa.Prelude.{
  ℕ, ◌+◌, ◌≤◌, String, false, ◌≡◌, refl, Option, none, some, List, [], ◌∷◌, map, arith, count,
  find?, if◌then◌else◌, same, All, eq_iff, Bool-cases, inl, inr, ◌∙◌, sym,
}
use echa.Protocol.Limits.{max_room_events, max_points_per_stroke}
use echa.Protocol.Messages.{ClientStrokeEvent, RoomStrokeEvent, AcceptedStrokeEvent}
use echa.Room.Log.{Stroke, StrokeLog, stroke_is, active_of, wanted, finalize_active_strokes}
use echa.Room.Log.Strokes.{StrokesInv}
use echa.Room.Log.Finalize.{ended_at, finalize_active_strokes_lem}
use echa.Room.State.{Connection, ConnectionAttachment, Room, connection_is}
use echa.Room.Persist.{Reply, persist_event}
use echa.Room.Persist.Invariant.{RoomInv, persist_event-RoomInv}
use echa.Room.Activity.{active_stroke}
use echa.Room.History.{IsBounded, count-ended, persist_event-IsBounded}

-- One step: an event of a client is persisted, or the server ends the strokes of one actor or of all
-- under a connection id of its own, which no row of `connections` has. No more than `k` strokes are
-- active after it.
pub data Step (byte_length : RoomStrokeEvent → ℕ) (k : ℕ) : Room → Room → Type 0 where
  persisted :
      (a : ConnectionAttachment) (event : ClientStrokeEvent) (now : ℕ) {r r' : Room} {reply : Reply}
      → persist_event byte_length a event now r ≡ some (r', reply)
      → count active_stroke r'.log.strokes ≤ k
      → Step byte_length k r r'
  finalized :
      (connection : String) (now : ℕ) (actor : Option String) {r : Room} {l' : StrokeLog}
      {out : List AcceptedStrokeEvent}
      → find? (connection_is connection) r.connections ≡ none
      → finalize_active_strokes byte_length connection now actor r.log ≡ some (l', out)
      → Step byte_length k r (record r { log = l' })

pub data Run (byte_length : RoomStrokeEvent → ℕ) (k : ℕ) : Room → Room → Type 0 where
  start : {r : Room} → Run byte_length k r r
  next : {r s t : Room} → Run byte_length k r s → Step byte_length k s t → Run byte_length k r t

abbrev end_wanted : Option String → ℕ → Stroke → Stroke
end_wanted actor now s = if wanted actor s then ended_at now s else s

ended-ids :
    (id : String) (actor : Option String) (now : ℕ) (xs : List Stroke)
    → count (stroke_is id) (map (end_wanted actor now) xs) ≡ count (stroke_is id) xs
ended-ids id actor now [] = refl
ended-ids id none now (x ∷ xs) = ground (arith, ended-ids id none now xs)
ended-ids id (some a) now (x ∷ xs) = ground (arith, ended-ids id (some a) now xs)

ended-active :
    (id : String) (actor : Option String) (now : ℕ) (xs : List Stroke)
    → count (active_of id) (map (end_wanted actor now) xs) ≤ count (active_of id) xs
ended-active id actor now [] = omega arith
ended-active id none now (x ∷ xs) = ground (arith, ended-active id none now xs)
ended-active id (some a) now (x ∷ xs) = ground (arith, ended-active id (some a) now xs)

ended-points :
    (actor : Option String) (now : ℕ) (xs : List Stroke)
    → All (λ s. s.point_count ≤ max_points_per_stroke) xs
    → All (λ s. s.point_count ≤ max_points_per_stroke) (map (end_wanted actor now) xs)
ended-points actor now [] h = tt
ended-points none now (x ∷ xs) h = (ground (arith, h.0), ended-points none now xs h.1)
ended-points (some a) now (x ∷ xs) h = (ground (arith, h.0), ended-points (some a) now xs h.1)

ended-StrokesInv :
    (actor : Option String) (now : ℕ) (xs : List Stroke)
    → StrokesInv xs
    → StrokesInv (map (end_wanted actor now) xs)
ended-StrokesInv actor now xs inv = record {
  ids_unique = λ id. omega (arith, inv.ids_unique id, ended-ids id actor now xs);
  one_active = λ id. omega (arith, inv.one_active id, ended-active id actor now xs);
  points_bounded = ended-points actor now xs inv.points_bounded;
}

-- A connection id without a row is not that of a row.
not-same_of_row :
    (connection id : String) (cs : List Connection) {c : Connection}
    → find? (connection_is connection) cs ≡ none
    → find? (connection_is id) cs ≡ some c
    → same connection id ≡ false
not-same_of_row connection id cs h found = elim (Bool-cases (same connection id)) [
  | inl e ↦
      let eq : connection ≡ id = ground (arith, eq_iff connection id) in
      absurd (let x : ⊥ = (let h' = rw eq at h in cc (h', found)) in x)
  | inr e ↦ e
]

-- What holds all along a run.
pub record Holds (k : ℕ) (r : Room) : Type 0 where
  pub consistent : RoomInv r
  pub bounded : IsBounded k r

module _ (byte_length : RoomStrokeEvent → ℕ) (k : ℕ) where
  finalized-Holds :
      (connection : String) (now : ℕ) (actor : Option String) (r : Room) {l' : StrokeLog}
      {out : List AcceptedStrokeEvent}
      → Holds k r
      → find? (connection_is connection) r.connections ≡ none
      → finalize_active_strokes byte_length connection now actor r.log ≡ some (l', out)
      → Holds k (record r { log = l' })
  finalized-Holds connection now actor r {l'} {out} inv new h =
      let (l1, out1, run, rows, gone, many, metric, numbers, keeps, others) =
        finalize_active_strokes_lem byte_length connection now actor r.log
          inv.consistent.strokes.ids_unique in
      let eq : l1 ≡ l' = ground arith in
      let left = count-ended actor now r.log.strokes in
      let now_active : count active_stroke l1.strokes + count (wanted actor) r.log.strokes
          ≡ count active_stroke r.log.strokes =
        rw rows left in
      rw (sym eq) (record {
        consistent = record {
          strokes = rw rows (ended-StrokesInv actor now r.log.strokes inv.consistent.strokes);
          events = keeps inv.consistent.events;
          ordered = λ id c n found past.
              others id n (not-same_of_row connection id r.connections new found)
              ∙ inv.consistent.ordered id c n found past;
        };
        bounded = record {
          active = omega (arith, now_active, inv.bounded.active);
          total = omega (arith, now_active, metric, inv.bounded.total);
        };
      })

  Step-Holds : {r s : Room} → Holds k r → Step byte_length k r s → Holds k s
  Step-Holds inv (persisted a event now {r} h few) = record {
    consistent = persist_event-RoomInv byte_length a event now r inv.consistent h;
    bounded = persist_event-IsBounded byte_length a event now k r inv.consistent inv.bounded few h;
  }
  Step-Holds inv (finalized connection now actor {r} new h) =
      finalized-Holds connection now actor r inv new h

  -- Along any run of client events and of calls of `finalizeActiveStrokes`, in whatever order, while no
  -- more than `k` strokes are active at a time, the tables stay consistent and the room takes at most
  -- `k` events past its limit.
  pub run_bounded :
      {r s : Room}
      → Holds k r
      → Run byte_length k r s
      → RoomInv s × (s.log.accepted ≤ max_room_events + k)
  run_bounded inv steps =
      let kept = run-Holds inv steps in (kept.consistent, omega (arith, kept.bounded.total))
    where
      run-Holds : {r s : Room} → Holds k r → Run byte_length k r s → Holds k s
      run-Holds inv start = inv
      run-Holds inv (next before step) = Step-Holds (run-Holds inv before) step
