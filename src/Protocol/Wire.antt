-- ===== src/Protocol/Wire.antt =====
-- packages/protocol/src/wire.ts, codec.ts, and of server-codec.ts the events of a room: stroke events
-- as records with a number for the opcode, and their frames.

pub mod Codec
pub mod Valid
pub mod Accepted
pub mod Sound
pub mod Typed
pub mod RoundTrip
pub mod Sent
mod Tests
use echa.Prelude.{
  ℕ, ◌*◌, String, Bool, true, false, Option, none, some, List, [], ◌∷◌, leb, ◌==◌, same,
  if◌then◌else◌, is_some, map, ◌>>=◌, ◌>>◌, guard,
}
use echa.Protocol.Limits.{
  canvas_width, canvas_height, min_opacity, max_opacity, min_brush_size, max_brush_size,
  protocol_version, max_frame_bytes,
}
use echa.Protocol.Messages.{
  Point, DrawingTool, brush, eraser, StrokeOp, begin, append, end, cancel, ClientStrokeEvent,
  RoomStrokeEvent, from_client, auto_finalized,
}
use echa.Protocol.Value.{
  Number, plus, Value, bool, num, text, array, object, Items, nil, cons, Fields, no_fields, field,
  get, int, decimal, whole, text_of, is_text, is_bool, is_int, to_list, of_list, number_of,
  number_between, decimal_between, set_field, has_exact_keys, Serializer,
}
use echa.Protocol.Value.Text.{is_identifier}
use echa.Protocol.Validation.Event.{
  StrokeOpcode, stroke_begin, stroke_append, stroke_end, stroke_cancel, opcode_of, matches,
  ValidationResult, success, failure, ValidationIssue, issue, whole_value, validate_client_event,
}

abbrev pub point_value : Point → Value
point_value p = array (cons (decimal p.x) (cons (decimal p.y) (cons (int p.dt) nil)))

abbrev pub tool_text : DrawingTool → String
tool_text brush = "brush"
tool_text eraser = "eraser"

abbrev pub opcode_text : StrokeOp → String
opcode_text (begin style p) = "stroke.begin"
opcode_text (append ps) = "stroke.append"
opcode_text end = "stroke.end"
opcode_text cancel = "stroke.cancel"

-- The fields that depend on the opcode.
abbrev pub op_fields : StrokeOp → Fields
op_fields (begin style p) = field "tool" (text (tool_text style.tool)) (
    field "color" (text style.color) (
      field "size" (num (plus style.size))
        (field "opacity" (decimal style.opacity) (field "point" (point_value p) no_fields))))
op_fields (append ps) = field "points" (array (of_list (map point_value ps))) no_fields
op_fields _ = no_fields

-- A client's event as a record.
abbrev pub event_fields : ClientStrokeEvent → Fields
event_fields e = field "v" (int protocol_version) (
    field "op" (text (opcode_text e.op))
      (field "clientSeq" (int e.client_seq) (field "id" (text e.id) (op_fields e.op))))

abbrev pub event_value : ClientStrokeEvent → Value
event_value e = object (event_fields e)

abbrev pub auto_finalized_fields : String → Fields
auto_finalized_fields id = field "v" (int protocol_version) (
    field "op" (text "stroke.end")
      (field "id" (text id) (field "serverGenerated" (bool true) no_fields)))

abbrev pub room_event_fields : RoomStrokeEvent → Fields
room_event_fields (from_client e) = event_fields e
room_event_fields (auto_finalized id) = auto_finalized_fields id

-- `OPCODE_TO_WIRE`.
abbrev pub opcode_to_wire : RoomStrokeEvent → ℕ
opcode_to_wire (from_client e) = elim e.op [
  | begin style p ↦ 0
  | append ps ↦ 1
  | end ↦ 2
  | cancel ↦ 3
]
opcode_to_wire (auto_finalized id) = 2

-- `WIRE_TO_OPCODE[op] ?? op`.
abbrev pub wire_to_opcode : Number → Value
wire_to_opcode (plus n) =
    if n == 0
    then text "stroke.begin"
    else if n == 1_000
    then text "stroke.append"
    else if n == 2_000
    then text "stroke.end"
    else if n == 3_000
    then text "stroke.cancel"
    else num (plus n)
wire_to_opcode n = num n

unfoldable pub to_binary_wire_event : RoomStrokeEvent → Value
to_binary_wire_event e = object (set_field "op" (int (opcode_to_wire e)) (room_event_fields e))

abbrev pub from_wire_fields : Fields → Option Number → Value
from_wire_fields fs none = object fs
from_wire_fields fs (some n) = object (set_field "op" (wire_to_opcode n) fs)

unfoldable pub from_binary_wire_event : Value → Value
from_binary_wire_event (object fs) = from_wire_fields fs (number_of (get "op" fs))
from_binary_wire_event v = v

-- What a `RangeError`, a `TypeError` and a `ProtocolDecodeError` report.
pub data Failure : Type 0 where
  message_too_large : Failure
  not_valid : Failure
  not_decoded : Failure
  decode_error : ValidationResult → Failure

pub data Outcome {ℓ} (A : Type ℓ) : Type ℓ where
  returns : A → Outcome A
  throws : Failure → Outcome A

pub data CodecName : Type 0 where
  json messagepack : CodecName

-- An own `stroke.end` of the server, past `validateClientEvent`.
abbrev pub is_auto_finalized : Fields → Bool
is_auto_finalized fs =
    if has_exact_keys fs ("v" ∷ "op" ∷ "id" ∷ "serverGenerated" ∷ [])
    then if is_int protocol_version (get "v" fs)
      then if is_text "stroke.end" (get "op" fs)
        then if matches (is_identifier 20 128) (get "id" fs)
          then is_bool true (get "serverGenerated" fs)
          else false
        else false
      else false
    else false

abbrev pub parse_auto_finalized : Value → Outcome Value
parse_auto_finalized (object fs) =
    if is_auto_finalized fs
    then elim (text_of (get "id" fs)) [
      | none ↦ throws not_valid
      | some id ↦ returns (object (auto_finalized_fields id))
    ]
    else throws not_valid
parse_auto_finalized _ = throws not_valid

abbrev pub parse_validated : Value → ValidationResult → Outcome Value
parse_validated logical (success v) = returns v
parse_validated logical (failure is) = parse_auto_finalized logical

unfoldable pub parse_room_event : Value → Outcome Value
parse_room_event v =
    let logical = from_binary_wire_event v in
    parse_validated logical (validate_client_event logical)

-- `if (encoded.byteLength > maxFrameBytes) throw …`.
abbrev pub within_frame {ℓ} : {A : Type ℓ} → ℕ → Outcome A → Outcome A
within_frame n next = if leb n max_frame_bytes then next else throws message_too_large

module _ (packer : Serializer) where
  unfoldable pub encode_room_event : RoomStrokeEvent → Outcome packer.Frame
  encode_room_event e =
      let frame = packer.encode (to_binary_wire_event e) in
      within_frame (packer.byte_length frame) (returns frame)

  abbrev pub parse_decoded : Option Value → Outcome Value
  parse_decoded none = throws not_decoded
  parse_decoded (some v) = parse_room_event v

  unfoldable pub decode_room_event : packer.Frame → Outcome Value
  decode_room_event frame =
      within_frame (packer.byte_length frame) (parse_decoded (packer.decode frame))
