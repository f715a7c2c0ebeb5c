-- ===== src/Protocol/Validation/Event.antt =====
-- packages/protocol/src/validation.ts: `validateClientEvent`.
-- An issue is kept with its code and its path, without its text for people.
use echa.Prelude.{
  ℕ, suc, ◌*◌, String, Bool, true, false, not, ◌||◌, Option, none, some, List, [], ◌∷◌, ltb, leb,
  same, if◌then◌else◌, is_some, length,
}
use echa.Protocol.Limits.{
  canvas_width, canvas_height, max_stroke_duration_ms, max_points_per_append, min_brush_size,
  max_brush_size, min_opacity, max_opacity, protocol_version,
}
use echa.Protocol.Messages.{RejectCode, unsupported_version, unknown_opcode, invalid_field}
use echa.Protocol.Value.{
  Number, minus, Value, num, text, array, object, nil, cons, Fields, get, keys, includes, whole,
  is_text, is_int, to_list, less, number_between, decimal_between,
}
use echa.Protocol.Value.Text.{is_identifier, is_color}

-- `point`, or `points[n]`.
pub data PointPath : Type 0 where
  single : PointPath
  element : ℕ → PointPath

pub data IssuePath : Type 0 where
  whole_value : IssuePath
  of_key : String → IssuePath
  of_point : PointPath → IssuePath
  of_part : PointPath → ℕ → IssuePath

pub record ValidationIssue : Type 0 where
  pub code : RejectCode
  pub path : IssuePath

pub data ValidationResult : Type 0 where
  success : Value → ValidationResult
  failure : List ValidationIssue → ValidationResult

-- `issue`.
abbrev pub issue : IssuePath → ValidationIssue
issue path = record { code = invalid_field; path = path }

-- `if (!ok) issues.push(i)`, and what comes after.
abbrev pub check : Bool → ValidationIssue → List ValidationIssue → List ValidationIssue
check ok i rest = if ok then rest else i ∷ rest

abbrev pub unknown_fields : List String → List String → List ValidationIssue → List ValidationIssue
unknown_fields allowed [] rest = rest
unknown_fields allowed (k ∷ ks) rest =
    check (includes k allowed) (issue (of_key k)) (unknown_fields allowed ks rest)

abbrev pub missing_fields : Fields → List String → List ValidationIssue → List ValidationIssue
missing_fields fs [] rest = rest
missing_fields fs (k ∷ ks) rest =
    check (is_some (get k fs)) (issue (of_key k)) (missing_fields fs ks rest)

unfoldable pub validate_exact_keys :
    Fields → List String → List ValidationIssue → List ValidationIssue
validate_exact_keys fs allowed rest =
    unknown_fields allowed (keys fs) (missing_fields fs allowed rest)

abbrev pub at_most : ℕ → Option ℕ → Bool
at_most limit none = false
at_most limit (some n) = leb n limit

abbrev pub at_least : ℕ → Option ℕ → Bool
at_least limit none = false
at_least limit (some n) = leb limit n

-- The three parts of a point.
abbrev pub validate_parts :
    PointPath → Value → Value → Value → List ValidationIssue → List ValidationIssue
validate_parts path x y dt rest =
    check (is_some (decimal_between 0 (canvas_width * 100) (some x))) (issue (of_part path 0)) (
      check (is_some (decimal_between 0 (canvas_height * 100) (some y))) (issue (of_part path 1))
        (check (at_most max_stroke_duration_ms (whole (some dt))) (issue (of_part path 2)) rest))

unfoldable pub validate_point :
    PointPath → Option Value → List ValidationIssue → List ValidationIssue
validate_point path (some (array (cons x (cons y (cons dt nil))))) rest =
    validate_parts path x y dt rest
validate_point path _ rest = issue (of_point path) ∷ rest

-- A text that passes a test.
abbrev pub matches : (String → Bool) → Option Value → Bool
matches p (some (text s)) = p s
matches p _ = false

unfoldable pub validate_common : Fields → List ValidationIssue → List ValidationIssue
validate_common fs rest =
    check (is_int protocol_version (get "v" fs))
      (record { code = unsupported_version; path = of_key "v" })
      (check (at_least 1 (whole (get "clientSeq" fs))) (issue (of_key "clientSeq"))
        (check (matches (is_identifier 20 128) (get "id" fs)) (issue (of_key "id")) rest))

abbrev pub begin_keys : List String
begin_keys = "v" ∷ "op" ∷ "clientSeq" ∷ "id" ∷ "tool" ∷ "color" ∷ "size" ∷ "opacity" ∷ "point" ∷ []

-- `Array.isArray(point) && point[2] !== 0` does not hold.
abbrev pub starts_at_zero : Option Value → Bool
starts_at_zero (some (array (cons x (cons y (cons dt vs))))) = is_int 0 (some dt)
starts_at_zero (some (array vs)) = false
starts_at_zero _ = true

unfoldable pub validate_begin : Fields → List ValidationIssue
validate_begin fs = validate_exact_keys fs begin_keys (
    check (is_text "brush" (get "tool" fs) || is_text "eraser" (get "tool" fs))
      (issue (of_key "tool"))
      (check (matches is_color (get "color" fs)) (issue (of_key "color")) (
        check
          (is_some
            (number_between (min_brush_size * 1_000) (max_brush_size * 1_000) (get "size" fs)))
          (issue (of_key "size"))
          (check (is_some (decimal_between min_opacity max_opacity (get "opacity" fs)))
            (issue (of_key "opacity"))
            (validate_point single (get "point" fs)
              (check (starts_at_zero (get "point" fs)) (issue (of_part single 2)) []))))))

-- `Array.isArray(point) && typeof point[2] === "number"`.
abbrev pub dt_of : Value → Option Number
dt_of (array (cons x (cons y (cons (num n) vs)))) = some n
dt_of _ = none

abbrev pub comes_after : Number → Option Number → Bool
comes_after previous none = true
comes_after previous (some n) = not (less n previous)

abbrev pub dt_or : Number → Option Number → Number
dt_or previous none = previous
dt_or previous (some n) = n

unfoldable pub validate_points : ℕ → Number → List Value → List ValidationIssue
validate_points index previous [] = []
validate_points index previous (v ∷ vs) =
    let rest = validate_points (suc index) (dt_or previous (dt_of v)) vs in
    validate_point (element index) (some v)
      (check (comes_after previous (dt_of v)) (issue (of_part (element index) 2)) rest)

-- -1.
abbrev pub before_zero : Number
before_zero = minus 999

abbrev pub validate_point_list : Option Value → List ValidationIssue
validate_point_list (some (array vs)) =
    let n = length (to_list vs) in
    if ltb n 1 || ltb max_points_per_append n
    then issue (of_key "points") ∷ []
    else validate_points 0 before_zero (to_list vs)
validate_point_list _ = issue (of_key "points") ∷ []

abbrev pub append_keys : List String
append_keys = "v" ∷ "op" ∷ "clientSeq" ∷ "id" ∷ "points" ∷ []

unfoldable pub validate_append : Fields → List ValidationIssue
validate_append fs = validate_exact_keys fs append_keys (validate_point_list (get "points" fs))

abbrev pub final_keys : List String
final_keys = "v" ∷ "op" ∷ "clientSeq" ∷ "id" ∷ []

-- `StrokeOpcode`.
pub data StrokeOpcode : Type 0 where
  stroke_begin stroke_append stroke_end stroke_cancel : StrokeOpcode

-- `typeof op === "string" && KNOWN_OPCODES.has(op)`.
unfoldable pub opcode_of : Option Value → Option StrokeOpcode
opcode_of (some (text s)) =
    if same s "stroke.begin"
    then some stroke_begin
    else if same s "stroke.append"
    then some stroke_append
    else if same s "stroke.end"
    then some stroke_end
    else if same s "stroke.cancel"
    then some stroke_cancel
    else none
opcode_of _ = none

-- The `switch` on the opcode.
unfoldable pub validate_op : StrokeOpcode → Fields → List ValidationIssue
validate_op stroke_begin fs = validate_begin fs
validate_op stroke_append fs = validate_append fs
validate_op _ fs = validate_exact_keys fs final_keys []

abbrev pub result_of : Value → List ValidationIssue → ValidationResult
result_of v [] = success v
result_of v (i ∷ is) = failure (i ∷ is)

abbrev pub validate_as : Fields → Option StrokeOpcode → ValidationResult
validate_as fs none = failure (record { code = unknown_opcode; path = of_key "op" } ∷ [])
validate_as fs (some op) = result_of (object fs) (validate_common fs (validate_op op fs))

unfoldable pub validate_client_event : Value → ValidationResult
validate_client_event (object fs) = validate_as fs (opcode_of (get "op" fs))
validate_client_event _ = failure (issue whole_value ∷ [])
