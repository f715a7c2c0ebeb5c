-- ===== src/Protocol/Wire/Typed.antt =====
-- packages/protocol/src/validation.ts: an accepted record as a typed event, opcode by opcode.
use echa.Prelude.{
  ℕ, ◌*◌, ◌≡◌, refl, ap, sym, ◌∙◌, String, Bool, true, ◌||◌, Option, none, some, List, [], ◌∷◌,
  arith, bind_of, ◌>>=◌, inr,
}
use echa.Protocol.Messages.{StrokeOp, begin, append, end, cancel, ClientStrokeEvent}
use echa.Protocol.Value.{
  plus, Value, null, num, text, array, object, cons, Fields, get, text_of, is_text,
}
use echa.Protocol.Value.Text.{is_color, is_identifier}
use echa.Protocol.Validation.Event.{
  PointPath, single, ValidationIssue, success, issue, of_part, begin_keys, append_keys,
  validate_point, validate_begin, validate_point_list, before_zero, validate_append,
  validate_common, matches, starts_at_zero, dt_of, StrokeOpcode, stroke_begin, stroke_append,
  stroke_end, stroke_cancel, opcode_of, validate_op, result_of, validate_as, validate_client_event,
}
use echa.Protocol.Wire.Valid.{
  IsValidOp, IsValidEvent, read_op, read_tool, point_at, points_at, client_event,
}
use echa.Protocol.Wire.Sound.{
  check-nil, validate_exact_keys-nil, number_between-some, decimal_between-some, Accepted,
  validate_point-nil, validate_points-nil, whole-at_least,
}

optional_point :
    (path : PointPath) (o : Option Value) (rest : List ValidationIssue)
    → validate_point path o rest ≡ []
    → (v : Value) × (o ≡ some v) × Accepted v rest
unfolding validate_point
optional_point path none rest h = absurd (let z : ⊥ = cc in z)
optional_point path (some v) rest h = (v, refl, validate_point-nil path v rest h)

zero_time :
    (v : Value) (t : ℕ) → dt_of v ≡ some (plus (t * 1_000)) → starts_at_zero (some v) ≡ true → t ≡ 0
zero_time (array (cons x (cons y (cons (num (plus n)) vs)))) t e h = ground arith
zero_time null t e h = absurd (let z : ⊥ = cc in z)
zero_time _ t e h = absurd (let z : ⊥ = cc in z)

matches_text :
    (p : String → Bool) (o : Option Value)
    → matches p o ≡ true
    → (s : String) × (text_of o ≡ some s) × (p s ≡ true)
matches_text p (some (text s)) h = (s, refl, h)
matches_text p none h = absurd (let z : ⊥ = cc in z)
matches_text p _ h = absurd (let z : ⊥ = cc in z)

tool_is_text :
    (o : Option Value)
    → (is_text "brush" o || is_text "eraser" o) ≡ true
    → (s : String) × (text_of o ≡ some s)
tool_is_text (some (text s)) h = (s, refl)
tool_is_text none h = absurd (let z : ⊥ = cc in z)
tool_is_text _ h = absurd (let z : ⊥ = cc in z)

abbrev Reads : StrokeOpcode → Fields → Type 0
Reads code fs = (op : StrokeOp) × (read_op code fs ≡ some op) × IsValidOp op

begin_nil : (fs : Fields) → validate_begin fs ≡ [] → Reads stroke_begin fs
unfolding validate_begin read_op
begin_nil fs h =
    let h1 = check-nil _ _ _ (validate_exact_keys-nil fs begin_keys _ h) in
    let h2 = check-nil _ _ _ h1.1 in
    let h3 = check-nil _ _ _ h2.1 in
    let h4 = check-nil _ _ _ h3.1 in
    let (tool, is_tool) = tool_is_text (get "tool" fs) h1.0 in
    let (color, color_read, is_valid) = matches_text is_color (get "color" fs) h2.0 in
    let (size, size_read, size_low, size_high) =
      number_between-some 1_000 60_000 (get "size" fs) h3.0 in
    let (opacity, opacity_read, opacity_low, opacity_high) =
      decimal_between-some 5 100 (get "opacity" fs) h4.0 in
    let (v, found, a) = optional_point single (get "point" fs) _ h4.1 in
    let starts =
      (check-nil (starts_at_zero (get "point" fs)) (issue (of_part single 2)) [] a.others).0 in
    (
      begin (record { tool = read_tool tool; color = color; size = size; opacity = opacity }) a.p,
      bind_of _ is_tool
          ∙ bind_of _ color_read
          ∙ bind_of _ size_read
          ∙ bind_of _ opacity_read
          ∙ bind_of _ (ap point_at found ∙ a.is_read),
      (
        is_valid,
        size_low,
        size_high,
        opacity_low,
        opacity_high,
        a.is_point,
        zero_time v a.p.dt a.time (ap starts_at_zero (sym found) ∙ starts),
      ),
    )

point_list_nil :
    (o : Option Value)
    → validate_point_list o ≡ []
    → (op : StrokeOp) × ((points_at o >>= λ ps. some (append ps)) ≡ some op) × IsValidOp op
point_list_nil (some (array vs)) h =
    let (ps, read, points, times, same_length) =
      validate_points-nil 0 0 before_zero vs (inr (refl, refl)) (ground arith) in
    (append ps, bind_of _ read, (ground arith, ground arith, points, times))
point_list_nil none h = absurd (let z : ⊥ = cc in z)
point_list_nil _ h = absurd (let z : ⊥ = cc in z)

validate_op-nil : (code : StrokeOpcode) (fs : Fields) → validate_op code fs ≡ [] → Reads code fs
unfolding validate_op validate_append read_op
validate_op-nil stroke_begin fs h = begin_nil fs h
validate_op-nil stroke_append fs h =
    point_list_nil (get "points" fs) (validate_exact_keys-nil fs append_keys _ h)
validate_op-nil stroke_end fs h = (end, refl, tt)
validate_op-nil stroke_cancel fs h = (cancel, refl, tt)

event_nil :
    (fs : Fields) (code : StrokeOpcode)
    → opcode_of (get "op" fs) ≡ some code
    → validate_common fs (validate_op code fs) ≡ []
    → (e : ClientStrokeEvent) × (client_event (object fs) ≡ some e) × IsValidEvent e
unfolding validate_common client_event
event_nil fs code known h =
    let h1 = check-nil _ _ _ h in
    let h2 = check-nil _ _ _ h1.1 in
    let h3 = check-nil _ _ _ h2.1 in
    let (seq, seq_read, low, high) = whole-at_least 1 (get "clientSeq" fs) h2.0 in
    let (id, id_read, named) = matches_text (is_identifier 20 128) (get "id" fs) h3.0 in
    let (op, op_read, valid) = validate_op-nil code fs h3.1 in
    (
      record { client_seq = seq; id = id; op = op },
      bind_of _ known ∙ bind_of _ seq_read ∙ bind_of _ id_read ∙ bind_of _ op_read,
      record { is_positive = low; is_safe = high; has_id = named; valid_op = valid },
    )

result_of-success :
    (v w : Value) (is : List ValidationIssue) → result_of v is ≡ success w → (w ≡ v) × (is ≡ [])
result_of-success v w [] h = (cc, refl)
result_of-success v w (i ∷ is) h = absurd (let z : ⊥ = cc in z)

accepted_as :
    (fs : Fields) (o : Option StrokeOpcode) (w : Value)
    → opcode_of (get "op" fs) ≡ o
    → validate_as fs o ≡ success w
    → (w ≡ object fs)
      × ((e : ClientStrokeEvent) × (client_event (object fs) ≡ some e) × IsValidEvent e)
accepted_as fs none w e h = absurd (let z : ⊥ = cc in z)
accepted_as fs (some code) w e h =
    let (same_value, no_issue) = result_of-success (object fs) w _ h in
    (same_value, event_nil fs code e no_issue)

-- What is accepted is the value itself, and it stands for a valid event.
pub validate_client_event-success :
    (v w : Value)
    → validate_client_event v ≡ success w
    → (w ≡ v) × ((e : ClientStrokeEvent) × (client_event v ≡ some e) × IsValidEvent e)
unfolding validate_client_event
validate_client_event-success (object fs) w h = accepted_as fs (opcode_of (get "op" fs)) w refl h
validate_client_event-success null w h = absurd (let z : ⊥ = cc in z)
validate_client_event-success _ w h = absurd (let z : ⊥ = cc in z)
