-- ===== src/Protocol/Wire/Valid.antt =====
-- packages/protocol/src/types.ts and validation.ts: the events that a protocol's partner may send,
-- stated on the typed events, and the typed event that a record stands for.
use echa.Prelude.{
  ℕ, ◌≤◌, ◌≡◌, String, true, Option, none, some, List, [], ◌∷◌, same, if◌then◌else◌, length, All,
  ◌>>=◌,
}
use echa.Protocol.Messages.{
  Point, DrawingTool, brush, eraser, StrokeOp, begin, append, end, cancel, ClientStrokeEvent,
}
use echa.Protocol.Value.{
  Value, array, object, Items, nil, cons, Fields, get, whole, text_of, number_between,
  decimal_between, max_safe_integer,
}
use echa.Protocol.Value.Text.{is_identifier, is_color}
use echa.Protocol.Validation.Event.{
  StrokeOpcode, stroke_begin, stroke_append, stroke_end, stroke_cancel, opcode_of,
}

pub record IsPoint (p : Point) : Type 0 where
  pub x_within : p.x ≤ 100_000
  pub y_within : p.y ≤ 100_000
  pub dt_within : p.dt ≤ 120_000

-- The times do not fall, and start at `low` or later.
abbrev pub IsTimed : ℕ → List Point → Type 0
IsTimed low [] = Unit
IsTimed low (p ∷ ps) = (low ≤ p.dt) × IsTimed p.dt ps

abbrev pub IsValidOp : StrokeOp → Type 0
IsValidOp (begin style p) =
    (is_color style.color ≡ true)
    × (1_000 ≤ style.size)
    × (style.size ≤ 60_000)
    × (5 ≤ style.opacity)
    × (style.opacity ≤ 100)
    × IsPoint p
    × (p.dt ≡ 0)
IsValidOp (append ps) = (1 ≤ length ps) × (length ps ≤ 12) × All IsPoint ps × IsTimed 0 ps
IsValidOp _ = Unit

pub record IsValidEvent (e : ClientStrokeEvent) : Type 0 where
  pub is_positive : 1 ≤ e.client_seq
  pub is_safe : e.client_seq ≤ max_safe_integer
  pub has_id : is_identifier 20 128 e.id ≡ true
  pub valid_op : IsValidOp e.op

-- The typed event of a record.
abbrev pub read_tool : String → DrawingTool
read_tool s = if same s "brush" then brush else eraser

abbrev pub read_point : Value → Option Point
read_point (array (cons x (cons y (cons dt nil)))) = do
  px ← decimal_between 0 100_000 (some x)
  py ← decimal_between 0 100_000 (some y)
  t ← whole (some dt)
  some (record { x = px; y = py; dt = t })
read_point _ = none

abbrev pub read_points : Items → Option (List Point)
read_points nil = some []
read_points (cons v vs) = do p ← read_point v; ps ← read_points vs; some (p ∷ ps)

abbrev pub point_at : Option Value → Option Point
point_at none = none
point_at (some v) = read_point v

abbrev pub points_at : Option Value → Option (List Point)
points_at (some (array vs)) = read_points vs
points_at _ = none

unfoldable pub read_op : StrokeOpcode → Fields → Option StrokeOp
read_op stroke_begin fs = do
  tool ← text_of (get "tool" fs)
  color ← text_of (get "color" fs)
  size ← number_between 1_000 60_000 (get "size" fs)
  opacity ← decimal_between 5 100 (get "opacity" fs)
  p ← point_at (get "point" fs)
  some (begin (record { tool = read_tool tool; color = color; size = size; opacity = opacity }) p)
read_op stroke_append fs = do ps ← points_at (get "points" fs); some (append ps)
read_op stroke_end fs = some end
read_op stroke_cancel fs = some cancel

unfoldable pub client_event : Value → Option ClientStrokeEvent
client_event (object fs) = do
  code ← opcode_of (get "op" fs)
  seq ← whole (get "clientSeq" fs)
  id ← text_of (get "id" fs)
  op ← read_op code fs
  some (record { client_seq = seq; id = id; op = op })
client_event _ = none
