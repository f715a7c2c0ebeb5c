-- ===== src/Room/Snapshots/Rows.antt =====
-- apps/realtime/src/drawing-room.ts: the rows of `stroke_events` that are left, as a run of numbers,
-- and what the statements of the snapshots select and delete of them.
use mathlib.Core.Path.{subst}
use echa.Prelude.{
  ℕ, zero, suc, ◌+◌, ◌≤◌, ◌<◌, min, ◌≡◌, refl, ap, sym, ◌∙◌, true, false, List, [], ◌∷◌, ◌++◌,
  arith, ◌&&◌, leb, ltb, select, delete, max_of, length, Bool-cases, ◌⊎◌, inl, inr,
}
use echa.Room.Log.{StoredEvent}
use echa.Room.Snapshots.Events.{in_range, take, last_of}

-- The numbers of the rows follow one another, from the one after `low` up to `high`.
abbrev pub IsRun : ℕ → List StoredEvent → ℕ → Type 0
IsRun low [] high = low ≡ high
IsRun low (e ∷ es) high = (e.room_seq ≡ suc low) × IsRun (suc low) es high

pub IsRun-le : (low high : ℕ) (es : List StoredEvent) → IsRun low es high → low ≤ high
IsRun-le low high [] h = omega (arith, h)
IsRun-le low high (e ∷ es) h = omega (arith, IsRun-le (suc low) high es h.1)

pub IsRun-length :
    (low high : ℕ) (es : List StoredEvent) → IsRun low es high → low + length es ≡ high
IsRun-length low high [] h = omega (arith, h)
IsRun-length low high (e ∷ es) h = omega (arith, IsRun-length (suc low) high es h.1)

pub IsRun-append :
    (low mid high : ℕ) (es fs : List StoredEvent)
    → IsRun low es mid
    → IsRun mid fs high
    → IsRun low (es ++ fs) high
IsRun-append low mid high [] fs h k = rw (sym h) at k
IsRun-append low mid high (e ∷ es) fs h k = (h.0, IsRun-append (suc low) mid high es fs h.1 k)

-- `COALESCE(MAX(room_seq), 0)` of a run that is not empty, or of all the numbers.
max_of-IsRun :
    (low high : ℕ) (es : List StoredEvent)
    → IsRun low es high
    → low < high
    → max_of (λ (e : StoredEvent). e.room_seq) es ≡ high
max_of-IsRun low high [] h k = absurd (omega (arith, h))
max_of-IsRun low high (e ∷ []) h k = omega (arith, h.0, h.1)
max_of-IsRun low high (e ∷ d ∷ es) h k = omega (
  arith,
  h.0,
  max_of-IsRun (suc low) high (d ∷ es) h.1
      (omega (arith, h.1.0, IsRun-le (suc (suc low)) high es h.1.1)),
)

pub max_of_run :
    (low high : ℕ) (es : List StoredEvent)
    → IsRun low es high
    → ((low ≡ 0) ⊎ (low < high))
    → max_of (λ (e : StoredEvent). e.room_seq) es ≡ high
max_of_run low high [] h (inl e) = omega (arith, h)
max_of_run low high (e ∷ es) h (inl z) =
    max_of-IsRun low high (e ∷ es) h (omega (arith, IsRun-le (suc low) high es h.1))
max_of_run low high es h (inr k) = max_of-IsRun low high es h k

-- None of the rows past the range.
select_none :
    (low high after through : ℕ) (es : List StoredEvent)
    → IsRun low es high
    → through ≤ low
    → select (in_range after through) es ≡ []
select_none low high after through [] h k = refl
select_none low high after through (e ∷ es) h k =
    ground (arith, h.0, select_none (suc low) high after through es h.1)

select_from :
    (low high through : ℕ) (es : List StoredEvent)
    → IsRun low es high
    → low ≤ through
    → through ≤ high
    → (after : ℕ) → after ≤ low
    → IsRun low (select (in_range after through) es) through
select_from low high through [] h k l after a = omega (arith, h)
select_from low high through (e ∷ es) h k l after a = elim (Bool-cases (leb e.room_seq through)) [
  | inl inside ↦
      let here : in_range after through e ≡ true = ground (arith, h.0) in
      rw here
        (h.0, select_from (suc low) high through es h.1 (ground (arith, h.0)) l after (omega arith))
  | inr past ↦
      let here : in_range after through e ≡ false = ground (arith, h.0) in
      let none_left = select_none (suc low) high after through es h.1 (ground (arith, h.0)) in
      rw (here, none_left) (ground (arith, h.0))
]

-- The rows of a range within the run are the run of the range.
pub select-IsRun :
    (low high after through : ℕ) (es : List StoredEvent)
    → IsRun low es high
    → low ≤ after
    → after ≤ through
    → through ≤ high
    → IsRun after (select (in_range after through) es) through
select-IsRun low high after through [] h k l m = omega (arith, h)
select-IsRun low high after through (e ∷ es) h k l m = elim (Bool-cases (ltb after e.room_seq)) [
  | inl inside ↦
      let start : low ≡ after = ground (arith, h.0) in
      subst (λ a. IsRun a (select (in_range after through) (e ∷ es)) through) start
        (select_from low high through (e ∷ es) h (omega arith) m after (omega arith))
  | inr before ↦
      let here : in_range after through e ≡ false = ground arith in
      rw here (select-IsRun (suc low) high after through es h.1 (ground (arith, h.0)) l m)
]

min_shift : (n low high : ℕ) → min (suc low + n) high ≡ min (low + suc n) high
min_shift n low high = omega arith

pub take-IsRun :
    (n low high : ℕ) (es : List StoredEvent)
    → IsRun low es high
    → IsRun low (take n es) (min (low + n) high)
take-IsRun zero low high es h = omega (arith, IsRun-le low high es h)
take-IsRun (suc n) low high [] h = omega (arith, h)
take-IsRun (suc n) low high (e ∷ es) h = (
  h.0,
  subst (IsRun (suc low) (take n es)) (min_shift n low high) (take-IsRun n (suc low) high es h.1),
)

pub last_of-IsRun :
    (low high : ℕ) (es : List StoredEvent) → IsRun low es high → last_of low es ≡ high
last_of-IsRun low high [] h = h
last_of-IsRun low high (e ∷ es) h = ap (λ n. last_of n es) h.0 ∙ last_of-IsRun (suc low) high es h.1

delete_past :
    (low high from through : ℕ) (es : List StoredEvent)
    → IsRun low es high
    → through ≤ low
    → IsRun low
        (delete (λ (d : StoredEvent). leb from d.room_seq && leb d.room_seq through) es)
        high
delete_past low high from through [] h k = h
delete_past low high from through (e ∷ es) h k =
    let here : (leb from e.room_seq && leb e.room_seq through) ≡ false = ground (arith, h.0) in
    rw here (h.0, delete_past (suc low) high from through es h.1 (omega arith))

-- What a deletion from a number at or before the first row up to `through` leaves.
pub delete-IsRun :
    (low high from through : ℕ) (es : List StoredEvent)
    → IsRun low es high
    → from ≤ suc low
    → low ≤ through
    → through ≤ high
    → IsRun through
        (delete (λ (d : StoredEvent). leb from d.room_seq && leb d.room_seq through) es)
        high
delete-IsRun low high from through [] h k l m = omega (arith, h)
delete-IsRun low high from through (e ∷ es) h k l m = elim (Bool-cases (leb e.room_seq through)) [
  | inl inside ↦
      let here : (leb from e.room_seq && leb e.room_seq through) ≡ true = ground (arith, h.0) in
      rw here
        (delete-IsRun (suc low) high from through es h.1 (omega arith) (ground (arith, h.0)) m)
  | inr past ↦
      let here : (leb from e.room_seq && leb e.room_seq through) ≡ false = ground arith in
      let start : low ≡ through = ground (arith, h.0) in
      rw here (
        subst
          (λ t.
            IsRun t
              (e ∷ delete (λ (d : StoredEvent). leb from d.room_seq && leb d.room_seq through) es)
              high)
          start (h.0, delete_past (suc low) high from through es h.1 (omega arith)))
]
