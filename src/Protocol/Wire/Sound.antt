-- ===== src/Protocol/Wire/Sound.antt =====
-- packages/protocol/src/validation.ts: what `validateClientEvent` accepts, read back as a typed event.
use echa.Prelude.{
  ℕ, suc, ◌*◌, ◌/◌, ◌≤◌, ◌≡◌, refl, ap, sym, ◌∙◌, String, Bool, true, false, Option, none, some,
  List, [], ◌∷◌, arith, is_some, length, All, inl, inr, bind_of, ◌⊎◌,
}
use echa.Protocol.Messages.{Point}
use echa.Protocol.Value.{
  Number, plus, Value, null, num, array, Items, nil, cons, Fields, keys, whole, to_list,
  number_between, decimal_between, max_safe_integer,
}
use echa.Protocol.Validation.Event.{
  PointPath, element, ValidationIssue, check, unknown_fields, missing_fields, validate_exact_keys,
  validate_point, validate_points, dt_of, dt_or, comes_after, before_zero, issue, of_part, at_most,
  at_least,
}
use echa.Protocol.Wire.Valid.{IsPoint, IsTimed, read_point, read_points}

pub check-nil :
    (b : Bool) (i : ValidationIssue) (rest : List ValidationIssue)
    → check b i rest ≡ []
    → (b ≡ true) × (rest ≡ [])
check-nil true i rest h = (refl, h)
check-nil false i rest h = absurd (let x : ⊥ = cc in x)

unknown_fields-nil :
    (allowed ks : List String) (rest : List ValidationIssue)
    → unknown_fields allowed ks rest ≡ []
    → rest ≡ []
unknown_fields-nil allowed [] rest h = h
unknown_fields-nil allowed (k ∷ ks) rest h =
    unknown_fields-nil allowed ks rest (check-nil _ _ _ h).1

missing_fields-nil :
    (fs : Fields) (ks : List String) (rest : List ValidationIssue)
    → missing_fields fs ks rest ≡ []
    → rest ≡ []
missing_fields-nil fs [] rest h = h
missing_fields-nil fs (k ∷ ks) rest h = missing_fields-nil fs ks rest (check-nil _ _ _ h).1

pub validate_exact_keys-nil :
    (fs : Fields) (allowed : List String) (rest : List ValidationIssue)
    → validate_exact_keys fs allowed rest ≡ []
    → rest ≡ []
unfolding validate_exact_keys
validate_exact_keys-nil fs allowed rest h =
    missing_fields-nil fs allowed rest (unknown_fields-nil allowed (keys fs) _ h)

pub number_between-some :
    (lo hi : ℕ) (v : Option Value)
    → is_some (number_between lo hi v) ≡ true
    → (n : ℕ) × (number_between lo hi v ≡ some n) × (lo ≤ n) × (n ≤ hi)
number_between-some lo hi (some (num (plus n))) h = (n, ground arith, ground arith, ground arith)
number_between-some lo hi none h = absurd (let x : ⊥ = cc in x)
number_between-some lo hi _ h = absurd (let x : ⊥ = cc in x)

pub decimal_between-some :
    (lo hi : ℕ) (v : Option Value)
    → is_some (decimal_between lo hi v) ≡ true
    → (n : ℕ) × (decimal_between lo hi v ≡ some n) × (lo ≤ n) × (n ≤ hi)
decimal_between-some lo hi (some (num (plus n))) h =
    (n / 10, ground arith, ground arith, ground arith)
decimal_between-some lo hi none h = absurd (let x : ⊥ = cc in x)
decimal_between-some lo hi _ h = absurd (let x : ⊥ = cc in x)

-- The number is the one that was written.
pub whole-at_most :
    (limit : ℕ) (v : Value)
    → at_most limit (whole (some v)) ≡ true
    → (n : ℕ) × (whole (some v) ≡ some n) × (n ≤ limit) × (v ≡ num (plus (n * 1_000)))
whole-at_most limit (num (plus n)) h =
    (n / 1_000, ground arith, ground arith, ap (λ m. num (plus m)) (ground arith))
whole-at_most limit null h = absurd (let x : ⊥ = cc in x)
whole-at_most limit _ h = absurd (let x : ⊥ = cc in x)

pub whole-at_least :
    (limit : ℕ) (v : Option Value)
    → at_least limit (whole v) ≡ true
    → (n : ℕ) × (whole v ≡ some n) × (limit ≤ n) × (n ≤ max_safe_integer)
whole-at_least limit (some (num (plus n))) h = (n / 1_000, ground arith, ground arith, ground arith)
whole-at_least limit none h = absurd (let x : ⊥ = cc in x)
whole-at_least limit _ h = absurd (let x : ⊥ = cc in x)

-- A point that raises no issue.
pub record Accepted (v : Value) (rest : List ValidationIssue) : Type 0 where
  pub p : Point
  pub is_read : read_point v ≡ some p
  pub is_point : IsPoint p
  pub time : dt_of v ≡ some (plus (p.dt * 1_000))
  pub others : rest ≡ []

parts_nil :
    (path : PointPath) (x y dt : Value) (rest : List ValidationIssue)
    → validate_point path (some (array (cons x (cons y (cons dt nil))))) rest ≡ []
    → Accepted (array (cons x (cons y (cons dt nil)))) rest
unfolding validate_point
parts_nil path x y dt rest h =
    let (hx, after_x) = check-nil _ _ _ h in
    let (hy, after_y) = check-nil _ _ _ after_x in
    let (ht, others) = check-nil _ _ _ after_y in
    let (px, ex, lx, ux) = decimal_between-some 0 100_000 (some x) hx in
    let (py, ey, ly, uy) = decimal_between-some 0 100_000 (some y) hy in
    let (t, et, ut, wt) = whole-at_most 120_000 dt ht in
    record {
      p = record { x = px; y = py; dt = t };
      is_read = bind_of _ ex ∙ bind_of _ ey ∙ bind_of _ et;
      is_point = record { x_within = ux; y_within = uy; dt_within = ut };
      time = ap (λ d. dt_of (array (cons x (cons y (cons d nil))))) wt;
      others = others;
    }

pub validate_point-nil :
    (path : PointPath) (v : Value) (rest : List ValidationIssue)
    → validate_point path (some v) rest ≡ []
    → Accepted v rest
unfolding validate_point
validate_point-nil path (array (cons x (cons y (cons dt nil)))) rest h =
    parts_nil path x y dt rest h
validate_point-nil path null rest h = absurd (let z : ⊥ = cc in z)
validate_point-nil path _ rest h = absurd (let z : ⊥ = cc in z)

-- The time of the point before, or -1 before the first.
abbrev FirstTime : Number → ℕ → Type 0
FirstTime previous low = (previous ≡ plus (low * 1_000)) ⊎ ((previous ≡ before_zero) × (low ≡ 0))

comes_after-le :
    (previous : Number) (low t : ℕ)
    → FirstTime previous low
    → comes_after previous (some (plus (t * 1_000))) ≡ true
    → low ≤ t
comes_after-le previous low t (inl e) h =
    let h' : comes_after (plus (low * 1_000)) (some (plus (t * 1_000))) ≡ true =
      ap (λ p. comes_after p (some (plus (t * 1_000)))) (sym e) ∙ h in
    ground arith
comes_after-le previous low t (inr f) h = omega (arith, f.1)

pub validate_points-nil :
    (index low : ℕ) (previous : Number) (vs : Items)
    → FirstTime previous low
    → validate_points index previous (to_list vs) ≡ []
    → (ps : List Point) × (read_points vs ≡ some ps)
      × All IsPoint ps
      × IsTimed low ps
      × (length ps ≡ length (to_list vs))
unfolding validate_points
validate_points-nil index low previous nil f h = ([], refl, tt, tt, refl)
validate_points-nil index low previous (cons v vs) f h =
    let next = λ (o : Option Number). validate_points (suc index) (dt_or previous o) (to_list vs) in
    let a = validate_point-nil (element index) v _ h in
    let (timed, rest) =
      check-nil (comes_after previous (dt_of v)) (issue (of_part (element index) 2))
        (next (dt_of v)) a.others in
    let (ps, read, points, times, same_length) =
      validate_points-nil (suc index) a.p.dt (plus (a.p.dt * 1_000)) vs (inl refl)
        (ap next (sym a.time) ∙ rest) in
    (
      a.p ∷ ps,
      bind_of _ a.is_read ∙ bind_of _ read,
      (a.is_point, points),
      (
        comes_after-le previous low a.p.dt f (ap (comes_after previous) (sym a.time) ∙ timed),
        times,
      ),
      ap suc same_length,
    )
