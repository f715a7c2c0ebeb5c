-- ===== src/Protocol/Value.antt =====
-- What `JSON.parse` and MessagePack give the code under packages/protocol/src: a value of type `unknown`.
-- A number is held in thousandths: the code compares numbers with constants of at most two decimals,
-- and tests them for being whole, safe or of two decimals. A record has no field that is `undefined`.
pub mod Text
pub mod Read
use echa.Prelude.{
  ℕ, ◌+◌, ◌*◌, ◌/◌, ◌%◌, ◌≡◌, String, Bool, true, false, not, ◌&&◌, ◌||◌, Option, none, some, List,
  [], ◌∷◌, ltb, leb, ◌==◌, same, if◌then◌else◌, length, ◌-◌, arith,
}

-- `minus n` is -(n + 1) thousandths.
pub data Number : Type 0 where
  nan infinity neg_infinity : Number
  plus minus : ℕ → Number

mutual
  pub data Value : Type 0 where
    null : Value
    bool : Bool → Value
    num : Number → Value
    text : String → Value
    array : Items → Value
    object : Fields → Value

  pub data Items : Type 0 where
    nil : Items
    cons : Value → Items → Items

  pub data Fields : Type 0 where
    no_fields : Fields
    field : String → Value → Fields → Fields

-- A whole number.
abbrev pub int : ℕ → Value
int n = num (plus (n * 1_000))

-- A number held in hundredths.
abbrev pub decimal : ℕ → Value
decimal n = num (plus (n * 10))

-- `value[key]`; `none` is `undefined`.
abbrev pub get : String → Fields → Option Value
get k no_fields = none
get k (field j v fs) = if same j k then some v else get k fs

-- `Object.keys`.
abbrev pub keys : Fields → List String
keys no_fields = []
keys (field k v fs) = k ∷ keys fs

-- `includes` and `Set.has`.
abbrev pub includes : String → List String → Bool
includes k [] = false
includes k (j ∷ js) = same j k || includes k js

abbrev pub every {ℓ} : {A : Type ℓ} → (A → Bool) → List A → Bool
every p [] = true
every p (x ∷ xs) = p x && every p xs

-- `hasExactKeys`.
abbrev pub has_exact_keys : Fields → List String → Bool
has_exact_keys fs ks = length (keys fs) == length ks && every (λ k. includes k ks) (keys fs)

abbrev pub max_safe_integer : ℕ
max_safe_integer = 9_007_199_254_740_991

-- `Number.isSafeInteger(value) && value >= 0`, the number where it holds.
abbrev pub whole : Option Value → Option ℕ
whole (some (num (plus n))) =
    if n % 1_000 == 0 && leb (n / 1_000) max_safe_integer then some (n / 1_000) else none
whole _ = none

-- `typeof value === "string"`.
abbrev pub text_of : Option Value → Option String
text_of (some (text s)) = some s
text_of _ = none

abbrev pub is_text : String → Option Value → Bool
is_text s (some (text t)) = same t s
is_text s _ = false

abbrev pub is_bool : Bool → Option Value → Bool
is_bool true (some (bool b)) = b
is_bool false (some (bool true)) = false
is_bool false (some (bool false)) = true
is_bool b _ = false

-- `value === n`.
abbrev pub is_int : ℕ → Option Value → Bool
is_int n (some (num (plus m))) = m == n * 1_000
is_int n _ = false

abbrev pub to_list : Items → List Value
to_list nil = []
to_list (cons v vs) = v ∷ to_list vs

abbrev pub of_list : List Value → Items
of_list [] = nil
of_list (v ∷ vs) = cons v (of_list vs)

-- `a < b`.
abbrev pub less : Number → Number → Bool
less nan b = false
less infinity b = false
less neg_infinity nan = false
less neg_infinity neg_infinity = false
less neg_infinity _ = true
less (plus n) (plus m) = ltb n m
less (plus n) infinity = true
less (plus n) _ = false
less (minus n) (minus m) = ltb m n
less (minus n) (plus m) = true
less (minus n) infinity = true
less (minus n) _ = false

-- `typeof value === "number"`.
abbrev pub number_of : Option Value → Option Number
number_of (some (num n)) = some n
number_of _ = none

-- A finite number from `lo` to `hi` thousandths, in thousandths.
abbrev pub number_between : ℕ → ℕ → Option Value → Option ℕ
number_between lo hi (some (num (plus n))) = if leb lo n && leb n hi then some n else none
number_between lo hi _ = none

-- `Math.round` of a tenth of a number.
abbrev round_tenth : ℕ → ℕ
round_tenth n = (n + 5) / 10

-- `Math.abs(m - n)`.
abbrev distance : ℕ → ℕ → ℕ
distance m n = (m - n) + (n - m)

-- `hasAtMostTwoDecimals` of a number in thousandths: its hundredfold is `n / 10`, so that both sides
-- of the comparison with 1e-8 are multiplied by 10 and then by 10,000,000.
abbrev pub has_at_most_two_decimals : ℕ → Bool
has_at_most_two_decimals n = ltb (distance n (10 * round_tenth n) * 10_000_000) 1

-- Of the thousandths, the tolerance lets the hundredths pass and no other.
pub has_at_most_two_decimals_lem : (n : ℕ) → has_at_most_two_decimals n ≡ (n % 10 == 0)
has_at_most_two_decimals_lem n = ground arith

-- The same with `hasAtMostTwoDecimals`, in hundredths.
abbrev pub decimal_between : ℕ → ℕ → Option Value → Option ℕ
decimal_between lo hi v = elim (number_between (lo * 10) (hi * 10) v) [
  | none ↦ none
  | some n ↦ if has_at_most_two_decimals n then some (n / 10) else none
]

-- `{ ...record, key: value }`.
abbrev pub set_field : String → Value → Fields → Fields
set_field k v no_fields = field k v no_fields
set_field k v (field j w fs) =
    let rest = field j w (set_field k v fs) in if same j k then field k v fs else rest

abbrev pub is_finite : Number → Bool
is_finite (plus n) = true
is_finite (minus n) = true
is_finite _ = false

-- Finite numbers, and no key twice: what a serialiser gives back as it was.
unfoldable mutual
  pub is_plain : Value → Bool
  is_plain null = true
  is_plain (bool b) = true
  is_plain (num n) = is_finite n
  is_plain (text s) = true
  is_plain (array vs) = plain_items vs
  is_plain (object fs) = plain_fields fs

  pub plain_items : Items → Bool
  plain_items nil = true
  plain_items (cons v vs) = is_plain v && plain_items vs

  pub plain_fields : Fields → Bool
  plain_fields no_fields = true
  plain_fields (field k v fs) = not (includes k (keys fs)) && (is_plain v && plain_fields fs)

-- `JSON` with the encoder of UTF-8, and MessagePack, which is not part of the repository: a decoder
-- may throw, and gives back the plain value that was encoded.
pub record Serializer : Type 1 where
  pub Frame : Type 0
  pub byte_length : Frame → ℕ
  pub encode : Value → Frame
  pub decode : Frame → Option Value
  pub decode-encode : (v : Value) → is_plain v ≡ true → decode (encode v) ≡ some v
