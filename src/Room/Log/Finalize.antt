-- ===== src/Room/Log/Finalize.antt =====
-- apps/realtime/src/drawing-room.ts: what `finalizeActiveStrokes` does.
use echa.Prelude.{
  ℕ, suc, ◌+◌, ◌≤◌, String, Bool, false, ◌&&◌, ◌||◌, ◌≡◌, refl, sym, ap, ◌∙◌, Option, none, some,
  List, [], ◌∷◌, map, arith, eq_iff, length, count, select, All, All-zip, All-imp, All-map_eq,
  All-not_of_count, same, if◌then◌else◌, length-select,
}
use echa.Protocol.Messages.{RoomStrokeEvent, auto_finalized, AcceptedStrokeEvent}
use echa.Room.Log.{
  Stroke, StrokeLog, ended, is_active, stroke_is, wanted, insert_by_id, order_by_id, end_stroke,
  next_seq_on, add_event, finalize_each, finalize_active_strokes, event_is,
}
use echa.Room.Log.Events.{EventsInv, insert_event-EventsInv, insert_event_lem, next_seq_on-free}

abbrev mem_id : String → List Stroke → Bool
mem_id id [] = false
mem_id id (s ∷ ss) = same s.stroke_id id || mem_id id ss

mem_id-insert :
    (id : String) (s : Stroke) (ss : List Stroke)
    → mem_id id (insert_by_id s ss) ≡ (same s.stroke_id id || mem_id id ss)
mem_id-insert id s [] = refl
mem_id-insert id s (t ∷ ts) = ground (arith, mem_id-insert id s ts)

mem_id-order : (id : String) (ss : List Stroke) → mem_id id (order_by_id ss) ≡ mem_id id ss
mem_id-order id [] = refl
mem_id-order id (s ∷ ss) = ground (arith, mem_id-insert id s (order_by_id ss), mem_id-order id ss)

length-insert : (s : Stroke) (ss : List Stroke) → length (insert_by_id s ss) ≡ suc (length ss)
length-insert s [] = refl
length-insert s (t ∷ ts) = ground (arith, length-insert s ts)

length-order : (ss : List Stroke) → length (order_by_id ss) ≡ length ss
length-order [] = refl
length-order (s ∷ ss) = ground (arith, length-insert s (order_by_id ss), length-order ss)

-- A row as an `UPDATE … SET status = 'ended'` leaves it.
abbrev pub ended_at : ℕ → Stroke → Stroke
ended_at now s = record s { status = ended; last_append_at = now }

abbrev ended_by : List Stroke → ℕ → Stroke → Stroke
ended_by ss now x = if is_active x.status && mem_id x.stroke_id ss then ended_at now x else x

ended_by-cons :
    (s : Stroke) (ss : List Stroke) (now : ℕ) (xs : List Stroke)
    → map (ended_by ss now) (end_stroke s.stroke_id now xs) ≡ map (ended_by (s ∷ ss) now) xs
ended_by-cons s ss now [] = refl
ended_by-cons s ss now (x ∷ xs) = ground (
  arith,
  ended_by-cons s ss now xs,
  eq_iff x.stroke_id s.stroke_id,
  eq_iff s.stroke_id x.stroke_id,
)

map_id_by_nil : (now : ℕ) (xs : List Stroke) → map (ended_by [] now) xs ≡ xs
map_id_by_nil now [] = refl
map_id_by_nil now (x ∷ xs) = ground (arith, map_id_by_nil now xs)

-- The broadcast events carry consecutive numbers.
abbrev pub IsConsecutive : ℕ → List AcceptedStrokeEvent → Type 0
IsConsecutive n [] = Unit
IsConsecutive n (a ∷ as') = (a.room_seq ≡ n) × IsConsecutive (suc n) as'

-- What the loop has done when it ends.
abbrev Finalized :
    String → ℕ → List Stroke → StrokeLog → StrokeLog → List AcceptedStrokeEvent → Type 0
Finalized connection now ss l l' out =
    (l'.strokes ≡ map (ended_by ss now) l.strokes)
    × (length out ≡ length ss)
    × (l'.accepted ≡ l.accepted + length ss)
    × (l'.last_seq ≡ l.last_seq + length ss)
    × IsConsecutive (suc l.last_seq) out
    × (EventsInv l → EventsInv l')
    × ((id : String) (n : ℕ)
        → same connection id ≡ false
        → count (event_is id n) l'.events ≡ count (event_is id n) l.events)

module _ (byte_length : RoomStrokeEvent → ℕ) (connection : String) (now : ℕ) where
  -- The log after one round of the loop.
  abbrev after : Stroke → StrokeLog → StrokeLog
  after s l =
      let l' =
        add_event byte_length s.actor connection (next_seq_on connection l.events)
          (auto_finalized s.stroke_id) now l in
      record l' { strokes = end_stroke s.stroke_id now l'.strokes }

  -- What is broadcast for that round.
  abbrev reported : Stroke → StrokeLog → AcceptedStrokeEvent
  reported s l = record {
    room_seq = suc l.last_seq;
    actor = s.actor;
    connection_id = connection;
    accepted_at = now;
    event = auto_finalized s.stroke_id;
  }

  finalize_each_lem :
      (ss : List Stroke) (l : StrokeLog)
      → (l' : StrokeLog) × (out : List AcceptedStrokeEvent) × (finalize_each byte_length connection
            now ss l
          ≡ some (l', out))
        × Finalized connection now ss l l' out
  unfolding finalize_each
  finalize_each_lem [] l = (
    l,
    [],
    refl,
    (
      sym (map_id_by_nil now l.strokes),
      refl,
      omega arith,
      omega arith,
      tt,
      (λ inv. inv),
      (λ id n other. refl),
    ),
  )
  finalize_each_lem (s ∷ ss) l =
      let free = next_seq_on-free connection l.events in
      let e =
        insert_event_lem byte_length s.actor connection (next_seq_on connection l.events)
          (auto_finalized s.stroke_id) now l free in
      let keeps = λ (inv : EventsInv l).
        insert_event-EventsInv byte_length s.actor connection (next_seq_on connection l.events)
          (auto_finalized s.stroke_id) now l inv e in
      let l1 : StrokeLog = after s l in
      let (l', out, run, (rows, many, metric, seq, numbers, inv, others)) =
        finalize_each_lem ss l1 in
      (
        l',
        reported s l ∷ out,
        rw (e, run),
        (
          rows ∙ ended_by-cons s ss now l.strokes,
          ap suc many,
          omega arith,
          omega arith,
          (refl, numbers),
          (λ i. inv (record {
            seqs_unique = (keeps i).seqs_unique;
            numbered = (keeps i).numbered;
            counted = (keeps i).counted;
          })),
          (λ id n other. others id n other ∙ (ground arith)),
        ),
      )

-- With unique keys, the rows that share a key with a selected row are the selected rows.
mem_id-select_none :
    (p : Stroke → Bool) (id : String) (xs : List Stroke)
    → count (stroke_is id) xs ≡ 0
    → mem_id id (select p xs) ≡ false
mem_id-select_none p id [] h = refl
mem_id-select_none p id (x ∷ xs) h = ground (arith, mem_id-select_none p id xs)

-- The keys of `strokes` are unique.
abbrev pub HasUniqueIds : List Stroke → Type 0
HasUniqueIds xs = (id : String) → count (stroke_is id) xs ≤ 1

mem_id-select :
    (p : Stroke → Bool) (xs : List Stroke)
    → HasUniqueIds xs
    → All (λ x. mem_id x.stroke_id (select p xs) ≡ p x) xs
mem_id-select p [] u = tt
mem_id-select p (x ∷ xs) u =
    let alone : count (stroke_is x.stroke_id) xs ≡ 0 =
      ground (arith, u x.stroke_id, eq_iff x.stroke_id x.stroke_id) in
    let below : HasUniqueIds xs = λ id. ground (arith, u id) in
    (
      ground (arith, mem_id-select_none p x.stroke_id xs alone, eq_iff x.stroke_id x.stroke_id),
      All-zip _ _ _ xs
          (λ y away same_test.
            ground (arith, eq_iff x.stroke_id y.stroke_id, eq_iff y.stroke_id x.stroke_id))
          (All-not_of_count (stroke_is x.stroke_id) xs alone) (mem_id-select p xs below),
    )

ended_by_of_wanted :
    (actor : Option String) (now : ℕ) (ss : List Stroke) (x : Stroke)
    → mem_id x.stroke_id ss ≡ wanted actor x
    → ended_by ss now x ≡ (if wanted actor x then ended_at now x else x)
ended_by_of_wanted none now ss x e = ground arith
ended_by_of_wanted (some a) now ss x e = ground arith

ended_by-select :
    (actor : Option String) (now : ℕ) (xs : List Stroke)
    → HasUniqueIds xs
    → map (ended_by (order_by_id (select (wanted actor) xs)) now) xs
      ≡ map (λ x. if wanted actor x then ended_at now x else x) xs
ended_by-select actor now xs u = All-map_eq _ _ xs (
    All-imp _ _ xs
      (λ x e.
        ended_by_of_wanted actor now _ x (mem_id-order x.stroke_id (select (wanted actor) xs) ∙ e))
      (mem_id-select (wanted actor) xs u))

not-wanted_ended :
    (actor : Option String) (now : ℕ) (x : Stroke) → wanted actor (ended_at now x) ≡ false
not-wanted_ended none now x = refl
not-wanted_ended (some a) now x = refl

none_wanted :
    (actor : Option String) (now : ℕ) (xs : List Stroke)
    → count (wanted actor) (map (λ s. if wanted actor s then ended_at now s else s) xs) ≡ 0
none_wanted actor now [] = refl
none_wanted actor now (x ∷ xs) =
    ground (arith, not-wanted_ended actor now x, none_wanted actor now xs)

-- With the keys of `strokes` unique, `finalizeActiveStrokes` never throws; it ends exactly the
-- wanted active strokes and leaves every other row alone, so that no wanted stroke is active
-- afterwards; it adds one event for each, numbered in turn after the last event of the room and
-- counted by the metric; it keeps the log's invariant, and adds nothing under any connection id but
-- its own.
pub finalize_active_strokes_lem :
    (byte_length : RoomStrokeEvent → ℕ) (connection : String) (now : ℕ) (actor : Option String)
    (l : StrokeLog)
    → HasUniqueIds l.strokes
    → (l' : StrokeLog) × (out : List AcceptedStrokeEvent) × (finalize_active_strokes byte_length
          connection now actor l
        ≡ some (l', out))
      × (l'.strokes ≡ map (λ s. if wanted actor s then ended_at now s else s) l.strokes)
      × (count (wanted actor) l'.strokes ≡ 0)
      × (length out ≡ count (wanted actor) l.strokes)
      × (l'.accepted ≡ l.accepted + count (wanted actor) l.strokes)
      × IsConsecutive (suc l.last_seq) out
      × (EventsInv l → EventsInv l')
      × ((id : String) (n : ℕ)
          → same connection id ≡ false
          → count (event_is id n) l'.events ≡ count (event_is id n) l.events)
unfolding finalize_active_strokes
finalize_active_strokes_lem byte_length connection now actor l u =
    let ss = order_by_id (select (wanted actor) l.strokes) in
    let (l', out, run, (rows, many, metric, seq, numbers, inv, others)) =
      finalize_each_lem byte_length connection now ss l in
    let size : length ss ≡ count (wanted actor) l.strokes =
      length-order (select (wanted actor) l.strokes) ∙ length-select (wanted actor) l.strokes in
    let exact = rows ∙ ended_by-select actor now l.strokes u in
    (
      l',
      out,
      run,
      exact,
      ap (count (wanted actor)) exact ∙ none_wanted actor now l.strokes,
      many ∙ size,
      omega arith,
      numbers,
      inv,
      others,
    )
