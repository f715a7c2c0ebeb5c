-- ===== src/Protocol/Wire/Accepted.antt =====
-- packages/protocol/src/validation.ts: `validateClientEvent` on the record of a valid event.
use echa.Protocol.Value.Text.{is_identifier}
use echa.Prelude.{
  ℕ, String, suc, ◌*◌, ◌≤◌, ◌≡◌, refl, ap, true, ◌||◌, some, List, [], ◌∷◌, arith, length, map, All,
}
use echa.Protocol.Messages.{
  Point, DrawingTool, brush, eraser, StrokeOp, begin, append, end, cancel, ClientStrokeEvent,
}
use echa.Protocol.Value.{
  plus, Value, text, decimal, is_text, to_list, of_list, decimal_between, max_safe_integer,
}
use echa.Protocol.Value.Read.{whole-int}
use echa.Protocol.Validation.Event.{
  PointPath, single, element, ValidationIssue, success, validate_exact_keys, validate_point,
  validate_common, validate_begin, validate_points, validate_append, opcode_of, validate_op,
  validate_client_event, before_zero,
}
use echa.Protocol.Wire.{tool_text, point_value, event_fields, event_value}
use echa.Protocol.Wire.Valid.{IsPoint, IsTimed, IsValidOp, IsValidEvent}

pub decimal_between_lem :
    (lo hi n : ℕ) → lo ≤ n → n ≤ hi → decimal_between lo hi (some (decimal n)) ≡ some n
decimal_between_lem lo hi n h k = ground arith

pub validate_point_ok :
    (path : PointPath) (p : Point) (rest : List ValidationIssue)
    → IsPoint p
    → validate_point path (some (point_value p)) rest ≡ rest
unfolding validate_point
validate_point_ok path p rest v =
    rw
      (
        decimal_between_lem 0 100_000 p.x (omega arith) v.x_within,
        decimal_between_lem 0 100_000 p.y (omega arith) v.y_within,
        whole-int p.dt (omega (arith, v.dt_within)),
      )
      (ground (arith, v.dt_within))

pub validate_points_ok :
    (index low : ℕ) (ps : List Point)
    → All IsPoint ps
    → IsTimed low ps
    → validate_points index (plus (low * 1_000)) (map point_value ps) ≡ []
unfolding validate_points
validate_points_ok index low [] h t = refl
validate_points_ok index low (p ∷ ps) h t =
    ground (
      arith,
      validate_point_ok (element index) p [],
      validate_points_ok (suc index) p.dt ps h.1 t.1,
    )

pub length-to_list : (ps : List Point) → length (to_list (of_list (map point_value ps))) ≡ length ps
length-to_list [] = refl
length-to_list (p ∷ ps) = ap suc (length-to_list ps)

pub to_list-of_list : (vs : List Value) → to_list (of_list vs) ≡ vs
to_list-of_list [] = refl
to_list-of_list (v ∷ vs) = ap (λ ws. v ∷ ws) (to_list-of_list vs)

-- The first point of a list, against -1.
validate_points_first :
    (ps : List Point)
    → All IsPoint ps
    → IsTimed 0 ps
    → validate_points 0 before_zero (map point_value ps) ≡ []
unfolding validate_points
validate_points_first [] h t = refl
validate_points_first (p ∷ ps) h t =
    ground (arith, validate_point_ok (element 0) p [], validate_points_ok 1 p.dt ps h.1 t.1)

known_tool :
    (t : DrawingTool)
    → (is_text "brush" (some (text (tool_text t))) || is_text "eraser" (some (text (tool_text t))))
      ≡ true
known_tool brush = refl
known_tool eraser = refl

-- The record of an event in parts.
abbrev event_of : ℕ → String → StrokeOp → ClientStrokeEvent
event_of seq id op = record { client_seq = seq; id = id; op = op }

module _ (seq : ℕ) (id : String) (positive : 1 ≤ seq) (safe : seq ≤ max_safe_integer)
    (named : is_identifier 20 128 id ≡ true) where
  validate_common_pass :
      (op : StrokeOp) (rest : List ValidationIssue)
      → validate_common (event_fields (event_of seq id op)) rest ≡ rest
  unfolding validate_common
  validate_common_pass op rest = rw (whole-int seq safe, named) (ground arith)

  validate_parts_ok :
      (op : StrokeOp)
      → IsValidOp op
      → validate_client_event (event_value (event_of seq id op))
        ≡ success (event_value (event_of seq id op))
  unfolding validate_client_event validate_op opcode_of validate_exact_keys validate_begin
      validate_append
  validate_parts_ok (begin style p) v = rw (validate_common_pass (begin style p)) (
      rw v.0 (
        rw (decimal_between_lem 5 100 style.opacity v.3 v.4)
          (rw (validate_point_ok single p _ v.5) (rw (known_tool style.tool) (ground arith)))))
  validate_parts_ok (append ps) v =
      rw
        (
          validate_common_pass (append ps),
          length-to_list ps,
          to_list-of_list (map point_value ps),
          validate_points_first ps v.2 v.3,
        )
        (ground arith)
  validate_parts_ok end v = rw (validate_common_pass end) refl
  validate_parts_ok cancel v = rw (validate_common_pass cancel) refl

-- The record of a valid event passes, as it is.
pub validate_client_event-IsValidEvent :
    (e : ClientStrokeEvent)
    → IsValidEvent e
    → validate_client_event (event_value e) ≡ success (event_value e)
validate_client_event-IsValidEvent e v =
    validate_parts_ok e.client_seq e.id v.is_positive v.is_safe v.has_id e.op v.valid_op
