-- ===== src/Prelude/Lists.antt =====
-- Lists measured by native numbers, and the statements of SQL on a table held as a list of rows.
use Prim.Native.Nat.{ℕ, suc, ◌+◌, ◌≤◌, ◌<◌, max}
use mathlib.Core.Path.{◌≡◌, refl, ap, subst}
use mathlib.Core.Logic.{inl, inr}
use mathlib.Core.Bool.{Bool, true, false}
use mathlib.Core.Option.{Option, none, some}
use mathlib.Core.List.{List, [], ◌∷◌, ◌++◌, map}
use native.Mathlib.Omega.{arith}
use echa.Prelude.Tests.{leb, if◌then◌else◌, Bool-cases}

module _ {ℓ} {A : Type ℓ} where
  abbrev pub length : List A → ℕ
  length [] = 0
  length (x ∷ xs) = suc (length xs)

  -- The first row that passes the test.
  abbrev pub find? : (A → Bool) → List A → Option A
  find? p [] = none
  find? p (x ∷ xs) = if p x then some x else find? p xs

  -- `SELECT … WHERE p`.
  abbrev pub select : (A → Bool) → List A → List A
  select p [] = []
  select p (x ∷ xs) = let rest = select p xs in if p x then x ∷ rest else rest

  -- `SELECT COUNT(*) … WHERE p`.
  abbrev pub count : (A → Bool) → List A → ℕ
  count p [] = 0
  count p (x ∷ xs) = let rest = count p xs in if p x then suc rest else rest

  -- `UPDATE … SET f WHERE p`.
  abbrev pub update : (A → Bool) → (A → A) → List A → List A
  update p f [] = []
  update p f (x ∷ xs) = (if p x then f x else x) ∷ update p f xs

  -- `DELETE … WHERE p`.
  abbrev pub delete : (A → Bool) → List A → List A
  delete p [] = []
  delete p (x ∷ xs) = let rest = delete p xs in if p x then rest else x ∷ rest

  -- `SELECT COALESCE(MAX(f), 0)`.
  abbrev pub max_of : (A → ℕ) → List A → ℕ
  max_of f [] = 0
  max_of f (x ∷ xs) = max (f x) (max_of f xs)

  abbrev pub All {κ} : (A → Type κ) → List A → Type κ
  All P [] = Unit
  All P (x ∷ xs) = P x × All P xs

  pub length-append : (xs ys : List A) → length (xs ++ ys) ≡ length xs + length ys
  length-append [] ys = omega arith
  length-append (x ∷ xs) ys = omega (arith, length-append xs ys)

  -- No row is found exactly when none is counted.
  pub count_of_find?-none : (p : A → Bool) (xs : List A) → find? p xs ≡ none → count p xs ≡ 0
  count_of_find?-none p [] h = refl
  count_of_find?-none p (x ∷ xs) h = ground (arith, count_of_find?-none p xs)

  pub find?-holds : (p : A → Bool) (xs : List A) (a : A) → find? p xs ≡ some a → p a ≡ true
  find?-holds p [] a h = cc
  find?-holds p (x ∷ xs) a h = ground (arith, find?-holds p xs a)

  pub count_of_find? : (p : A → Bool) (xs : List A) (a : A) → find? p xs ≡ some a → 1 ≤ count p xs
  count_of_find? p [] a h = cc
  count_of_find? p (x ∷ xs) a h = ground (arith, count_of_find? p xs a)

  pub find?_of_count : (p : A → Bool) (xs : List A) → 0 < count p xs → find? p xs ≡ none → ⊥
  find?_of_count p xs h e = omega (arith, count_of_find?-none p xs e)

  -- A test that an update does not disturb counts the same rows.
  pub count-update_same :
      (q p : A → Bool) (f : A → A) (xs : List A)
      → ((x : A) → q (f x) ≡ q x)
      → count q (update p f xs) ≡ count q xs
  count-update_same q p f [] h = refl
  count-update_same q p f (x ∷ xs) h = ground (arith, h x, count-update_same q p f xs h)

  -- An update after which no more rows pass a test.
  pub count-update_le :
      (q p : A → Bool) (f : A → A) (xs : List A)
      → ((x : A) → q (f x) ≡ true → q x ≡ true)
      → count q (update p f xs) ≤ count q xs
  count-update_le q p f [] h = omega arith
  count-update_le q p f (x ∷ xs) h = ground (arith, h x, count-update_le q p f xs h)

  pub count-delete_le : (q p : A → Bool) (xs : List A) → count q (delete p xs) ≤ count q xs
  count-delete_le q p [] = omega arith
  count-delete_le q p (x ∷ xs) = ground (arith, count-delete_le q p xs)

  pub count-append : (q : A → Bool) (xs ys : List A) → count q (xs ++ ys) ≡ count q xs + count q ys
  count-append q [] ys = omega arith
  count-append q (x ∷ xs) ys = ground (arith, count-append q xs ys)

  pub length-update : (p : A → Bool) (f : A → A) (xs : List A) → length (update p f xs) ≡ length xs
  length-update p f [] = refl
  length-update p f (x ∷ xs) = ap suc (length-update p f xs)

  pub count-zero_of :
      (q p : A → Bool) (xs : List A)
      → ((x : A) → q x ≡ true → p x ≡ true)
      → count p xs ≡ 0
      → count q xs ≡ 0
  count-zero_of q p [] h e = refl
  count-zero_of q p (x ∷ xs) h e = ground (arith, h x, count-zero_of q p xs h)

  pub le-max_of :
      (f : A → ℕ) (p : A → Bool) (n : ℕ) (xs : List A)
      → ((x : A) → p x ≡ true → f x ≡ n)
      → max_of f xs < n
      → count p xs ≡ 0
  le-max_of f p n [] h e = refl
  le-max_of f p n (x ∷ xs) h e = elim (Bool-cases (p x)) [
    | inl e' ↦ absurd (omega (arith, h x e'))
    | inr e' ↦ rw e' (le-max_of f p n xs h (omega arith))
  ]

module _ {ℓ} {A : Type ℓ} where
  pub update_none : (p : A → Bool) (f : A → A) (xs : List A) → count p xs ≡ 0 → update p f xs ≡ xs
  update_none p f [] h = refl
  update_none p f (x ∷ xs) h = ground (arith, update_none p f xs)

  pub All-update {κ} :
      (P : A → Type κ) (p : A → Bool) (f : A → A) (xs : List A)
      → ((x : A) → P x → P (f x))
      → All P xs
      → All P (update p f xs)
  All-update P p f [] keep h = tt
  All-update P p f (x ∷ xs) keep h = elim (Bool-cases (p x)) [
    | inl e ↦ rw e (keep x h.0, All-update P p f xs keep h.1)
    | inr e ↦ rw e (h.0, All-update P p f xs keep h.1)
  ]

  -- An update of the one row that a unique key finds.
  pub All-update_one {κ} :
      (P : A → Type κ) (p : A → Bool) (f : A → A) (xs : List A) (s : A)
      → find? p xs ≡ some s
      → count p xs ≤ 1
      → P (f s)
      → All P xs
      → All P (update p f xs)
  All-update_one P p f [] s e u k h = tt
  All-update_one P p f (x ∷ xs) s e u k h = elim (Bool-cases (p x)) [
    | inl t ↦
        let same_row : x ≡ s = ground arith in
        let others : update p f xs ≡ xs = update_none p f xs (ground arith) in
        rw t (rw others (rw same_row k, h.1))
    | inr t ↦ rw t (h.0, All-update_one P p f xs s (ground arith) (ground arith) k h.1)
  ]

  pub find?-none_of_count : (p : A → Bool) (xs : List A) → count p xs ≡ 0 → find? p xs ≡ none
  find?-none_of_count p [] h = refl
  find?-none_of_count p (x ∷ xs) h = ground (arith, find?-none_of_count p xs)

  pub length-select : (p : A → Bool) (xs : List A) → length (select p xs) ≡ count p xs
  length-select p [] = refl
  length-select p (x ∷ xs) = ground (arith, length-select p xs)

  pub All-zip {κ μ ν} :
      (P : A → Type κ) (Q : A → Type μ) (R : A → Type ν) (xs : List A)
      → ((x : A) → P x → Q x → R x)
      → All P xs
      → All Q xs
      → All R xs
  All-zip P Q R [] f h k = tt
  All-zip P Q R (x ∷ xs) f h k = (f x h.0 k.0, All-zip P Q R xs f h.1 k.1)

  pub All-map_eq {κ} :
      {B : Type κ} (f g : A → B) (xs : List A) → All (λ x. f x ≡ g x) xs → map f xs ≡ map g xs
  All-map_eq f g [] h = refl
  All-map_eq f g (x ∷ xs) h = cc (h.0, All-map_eq f g xs h.1)

  pub All-not_of_count : (p : A → Bool) (xs : List A) → count p xs ≡ 0 → All (λ x. p x ≡ false) xs
  All-not_of_count p [] h = tt
  All-not_of_count p (x ∷ xs) h = elim (Bool-cases (p x)) [
    | inl e ↦ absurd (let y : ⊥ = ground arith in y)
    | inr e ↦ (e, All-not_of_count p xs (ground arith))
  ]

  pub count-map_zero :
      (q : A → Bool) (f : A → A) (xs : List A)
      → ((x : A) → q (f x) ≡ false)
      → count q (map f xs) ≡ 0
  count-map_zero q f [] h = refl
  count-map_zero q f (x ∷ xs) h = ground (arith, h x, count-map_zero q f xs h)

  pub All-imp {κ μ} :
      (P : A → Type κ) (Q : A → Type μ) (xs : List A) → ((x : A) → P x → Q x) → All P xs → All Q xs
  All-imp P Q [] f h = tt
  All-imp P Q (x ∷ xs) f h = (f x h.0, All-imp P Q xs f h.1)

  pub find?-update_self :
      (p : A → Bool) (f : A → A) (xs : List A) (a : A)
      → ((x : A) → p (f x) ≡ p x)
      → find? p xs ≡ some a
      → find? p (update p f xs) ≡ some (f a)
  find?-update_self p f [] a keep h = cc
  find?-update_self p f (x ∷ xs) a keep h = ground (arith, keep x, find?-update_self p f xs a keep)

  -- The rows of a test after an update of the one row that a unique key finds.
  pub count-update_one :
      (q p : A → Bool) (f : A → A) (xs : List A) (s : A)
      → find? p xs ≡ some s
      → count p xs ≤ 1
      → count q (update p f xs) + (if q s then 1 else 0) ≡ count q xs + (if q (f s) then 1 else 0)
  count-update_one q p f [] s e u = cc
  count-update_one q p f (x ∷ xs) s e u = elim (Bool-cases (p x)) [
    | inl t ↦
        let same_row : x ≡ s = ground arith in
        let others : update p f xs ≡ xs = update_none p f xs (ground arith) in
        rw (t, others, same_row) (ground arith)
    | inr t ↦ ground (arith, count-update_one q p f xs s)
  ]

  -- What holds of all rows holds of the one that is found.
  pub All-find {κ} :
      (P : A → Type κ) (p : A → Bool) (xs : List A) (a : A) → All P xs → find? p xs ≡ some a → P a
  All-find P p [] a h e = absurd (let z : ⊥ = cc in z)
  All-find P p (x ∷ xs) a h e = elim (Bool-cases (p x)) [
    | inl t ↦ let is_a : x ≡ a = ground arith in subst P is_a h.0
    | inr t ↦ All-find P p xs a h.1 (ground arith)
  ]

pub leb_of_le : (a b : ℕ) → a ≤ b → leb a b ≡ true
leb_of_le a b h = ground arith
