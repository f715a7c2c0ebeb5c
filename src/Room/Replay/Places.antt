-- ===== src/Room/Replay/Places.antt =====
-- apps/realtime/src/drawing-room.ts: the places of rows in a log with consecutive numbers.
use mathlib.Core.Path.{subst}
use echa.Prelude.{
  ℕ, zero, suc, ◌+◌, ◌≤◌, ◌<◌, ◌≡◌, refl, ap, sym, ◌∙◌, ◌⊎◌, true, false, List, [], ◌∷◌, arith, ltb,
  length, select,
}
use echa.Room.Log.{StoredEvent}
use echa.Room.Snapshots.Events.{take}
use echa.Room.Snapshots.Rows.{IsRun}
use echa.Room.Replay.{drop, is_after}

-- The rows after a number at or before the first one are all.
select_all :
    (low high after : ℕ) (es : List StoredEvent)
    → IsRun low es high
    → after ≤ low
    → select (is_after after) es ≡ es
select_all low high after [] h k = refl
select_all low high after (e ∷ es) h k =
    let here : is_after after e ≡ true = ground (arith, h.0) in
    rw here (ap (λ r. e ∷ r) (select_all (suc low) high after es h.1 (omega arith)))

pub select_after :
    (n low high after : ℕ) (es : List StoredEvent)
    → IsRun low es high
    → after ≡ low + n
    → select (is_after after) es ≡ drop n es
select_after zero low high after es h k = select_all low high after es h (omega (arith, k))
select_after (suc n) low high after [] h k = refl
select_after (suc n) low high after (e ∷ es) h k =
    let here : is_after after e ≡ false = ground (arith, h.0, k) in
    rw here (select_after n (suc low) high after es h.1 (omega (arith, k)))

pub drop-IsRun :
    (n low high : ℕ) (es : List StoredEvent)
    → IsRun low es high
    → n ≤ length es
    → IsRun (low + n) (drop n es) high
drop-IsRun zero low high es h k = subst (λ m. IsRun m es high) (omega arith) h
drop-IsRun (suc n) low high [] h k = absurd (omega arith)
drop-IsRun (suc n) low high (e ∷ es) h k =
    subst (λ m. IsRun m (drop n es) high) (omega arith)
      (drop-IsRun n (suc low) high es h.1 (omega arith))

pub lt_or_ge : (m n : ℕ) → ((ltb m n ≡ true) × (m < n)) ⊎ (n ≤ m)
lt_or_ge m n = ground arith

pub ltb_ge : (m n : ℕ) → n ≤ m → ltb m n ≡ false
ltb_ge m n h = ground arith

module _ {ℓ} {A : Type ℓ} where
  pub take_all : (n : ℕ) (xs : List A) → length xs ≤ n → take n xs ≡ xs
  take_all zero [] h = refl
  take_all zero (x ∷ xs) h = absurd (omega arith)
  take_all (suc n) [] h = refl
  take_all (suc n) (x ∷ xs) h = ap (λ r. x ∷ r) (take_all n xs (omega arith))

  drop_nil : (m : ℕ) → drop {A = A} m [] ≡ []
  drop_nil zero = refl
  drop_nil (suc m) = refl

  pub drop-drop : (k n : ℕ) (xs : List A) → drop k (drop n xs) ≡ drop (n + k) xs
  drop-drop k zero xs = ap (λ m. drop m xs) (omega arith)
  drop-drop k (suc n) [] = drop_nil k ∙ sym (drop_nil (suc n + k))
  drop-drop k (suc n) (x ∷ xs) =
      let next : suc (n + k) ≡ suc n + k = omega arith in
      drop-drop k n xs ∙ ap (λ m. drop m (x ∷ xs)) next
