-- ===== src/Protocol/Wire/RoundTrip.antt =====
-- packages/protocol/src/codec.ts and server-codec.ts: the frames of events, there and back.
use echa.Prelude.{
  ℕ, ◌≤◌, ◌≡◌, refl, ap, ◌∙◌, String, true, some, List, [], ◌∷◌, map, arith, none, leb, Option,
  Bool-cases, inl, inr, bind_of, All,
}
use mathlib.Core.Path.{subst}
use echa.Protocol.Limits.{max_frame_bytes}
use echa.Protocol.Messages.{
  Point, DrawingTool, brush, eraser, StrokeOp, begin, append, end, cancel, ClientStrokeEvent,
  RoomStrokeEvent, from_client, auto_finalized,
}
use echa.Protocol.Value.{
  Value, object, is_plain, plain_items, of_list, Serializer, max_safe_integer,
}
use echa.Protocol.Value.Text.{is_identifier}
use echa.Protocol.Value.Read.{whole-int}
use echa.Protocol.Validation.Event.{
  ValidationResult, failure, opcode_of, validate_common, success, validate_client_event,
}
use echa.Protocol.Wire.{
  Outcome, returns, CodecName, json, messagepack, point_value, tool_text, event_value,
  room_event_fields, to_binary_wire_event, from_binary_wire_event, parse_room_event,
  parse_validated, parse_decoded, auto_finalized_fields, encode_room_event, decode_room_event,
  within_frame, parse_validated,
}
use echa.Protocol.Wire.Codec.{
  wire_value, logical_value, encode_validated, validate_decoded, validated, encode_event,
  decode_event,
}
use echa.Protocol.Wire.Valid.{
  IsPoint, IsValidOp, IsValidEvent, read_tool, read_point, read_points, read_op, client_event,
}
use echa.Protocol.Wire.Accepted.{decimal_between_lem, validate_client_event-IsValidEvent}
use echa.Protocol.Wire.Typed.{validate_client_event-success}

read_tool-tool_text : (t : DrawingTool) → read_tool (tool_text t) ≡ t
read_tool-tool_text brush = refl
read_tool-tool_text eraser = refl

read_point-point_value : (p : Point) → IsPoint p → read_point (point_value p) ≡ some p
read_point-point_value p v =
    bind_of _ (decimal_between_lem 0 100_000 p.x (omega arith) v.x_within)
    ∙ bind_of _ (decimal_between_lem 0 100_000 p.y (omega arith) v.y_within)
    ∙ bind_of _ (whole-int p.dt (omega (arith, v.dt_within)))

read_points-point_value :
    (ps : List Point) → All IsPoint ps → read_points (of_list (map point_value ps)) ≡ some ps
read_points-point_value [] h = refl
read_points-point_value (p ∷ ps) h =
    bind_of _ (read_point-point_value p h.0) ∙ bind_of _ (read_points-point_value ps h.1)

module _ (seq : ℕ) (id : String) (safe : seq ≤ max_safe_integer) where
  read_parts :
      (op : StrokeOp)
      → IsValidOp op
      → client_event (event_value (record { client_seq = seq; id = id; op = op }))
        ≡ some (record { client_seq = seq; id = id; op = op })
  unfolding client_event read_op opcode_of
  read_parts (begin style p) v =
      bind_of _ (whole-int seq safe)
      ∙ rw
          (
            decimal_between_lem 5 100 style.opacity v.3 v.4,
            read_point-point_value p v.5,
            read_tool-tool_text style.tool,
          )
          (ground arith)
  read_parts (append ps) v =
      bind_of _ (whole-int seq safe) ∙ bind_of _ (bind_of _ (read_points-point_value ps v.2))
  read_parts end v = bind_of _ (whole-int seq safe)
  read_parts cancel v = bind_of _ (whole-int seq safe)

-- The record of an event is read back as the event.
pub client_event-event_value :
    (e : ClientStrokeEvent) → IsValidEvent e → client_event (event_value e) ≡ some e
client_event-event_value e v = read_parts e.client_seq e.id v.is_safe e.op v.valid_op

plain_points : (ps : List Point) → plain_items (of_list (map point_value ps)) ≡ true
unfolding is_plain
plain_points [] = refl
plain_points (p ∷ ps) = plain_points ps

module _ (seq : ℕ) (id : String) where
  plain_parts :
      (codec : CodecName) (op : StrokeOp)
      → is_plain (wire_value codec (record { client_seq = seq; id = id; op = op })) ≡ true
  unfolding is_plain to_binary_wire_event
  plain_parts json (begin style p) = refl
  plain_parts json (append ps) = rw (plain_points ps)
  plain_parts json end = refl
  plain_parts json cancel = refl
  plain_parts messagepack (begin style p) = refl
  plain_parts messagepack (append ps) = rw (plain_points ps)
  plain_parts messagepack end = refl
  plain_parts messagepack cancel = refl

  logical_parts :
      (codec : CodecName) (op : StrokeOp)
      → let e : ClientStrokeEvent = record { client_seq = seq; id = id; op = op } in
        logical_value codec (wire_value codec e) ≡ event_value e
  unfolding to_binary_wire_event from_binary_wire_event
  logical_parts json op = refl
  logical_parts messagepack (begin style p) = refl
  logical_parts messagepack (append ps) = refl
  logical_parts messagepack end = refl
  logical_parts messagepack cancel = refl

pub within_frame-small {ℓ} :
    {A : Type ℓ} {n : ℕ} (next : Outcome A) → n ≤ max_frame_bytes → within_frame n next ≡ next
within_frame-small next h = ground arith

-- A valid event whose frame is not too large comes back from either codec, and is read as the event.
pub decode_event-encode_event :
    (codec : CodecName) (serializer : Serializer) (e : ClientStrokeEvent)
    → IsValidEvent e
    → serializer.byte_length (serializer.encode (wire_value codec e)) ≤ max_frame_bytes
    → (frame : serializer.Frame) × (encode_event codec serializer e ≡ returns frame)
      × (decode_event codec serializer frame ≡ returns (event_value e))
      × (client_event (event_value e) ≡ some e)
unfolding encode_event decode_event
decode_event-encode_event codec serializer e v small =
    let accepted = validate_client_event-IsValidEvent e v in
    let decoded =
      serializer.decode-encode (wire_value codec e) (plain_parts e.client_seq e.id codec e.op) in
    let logical = logical_parts e.client_seq e.id codec e.op in
    (
      serializer.encode (wire_value codec e),
      ap (encode_validated codec serializer e) accepted ∙ within_frame-small _ small,
      within_frame-small _ small
          ∙ ap (validate_decoded codec serializer) decoded
          ∙ ap (λ w. validated (validate_client_event w)) logical
          ∙ ap validated accepted,
      client_event-event_value e v,
    )

-- What `decode_event` returns stands for a valid event.
validated-returns :
    (v w : Value)
    → validated (validate_client_event v) ≡ returns w
    → (e : ClientStrokeEvent) × (client_event w ≡ some e) × IsValidEvent e
validated-returns v w h = cases (validate_client_event v) refl h
  where
    cases :
        (r : ValidationResult)
        → validate_client_event v ≡ r
        → validated r ≡ returns w
        → (e : ClientStrokeEvent) × (client_event w ≡ some e) × IsValidEvent e
    cases (success x) e k =
        let (same, found) = validate_client_event-success v x e in
        let w_is : v ≡ w = cc in
        subst (λ y. (d : ClientStrokeEvent) × (client_event y ≡ some d) × IsValidEvent d) w_is found
    cases (failure is) e k = absurd (let z : ⊥ = cc in z)

-- Where decodeEvent returns on a frame whose numbers are whole thousandths, it returns the record of
-- an event whose fields meet the protocol: its number, id, style, points and times.
pub decode_event-IsValidEvent :
    (codec : CodecName) (serializer : Serializer) (frame : serializer.Frame) (v : Value)
    → decode_event codec serializer frame ≡ returns v
    → (e : ClientStrokeEvent) × (client_event v ≡ some e) × IsValidEvent e
unfolding decode_event
decode_event-IsValidEvent codec serializer frame v h =
    elim (Bool-cases (leb (serializer.byte_length frame) max_frame_bytes)) [
      | inl small ↦ decoded (serializer.decode frame) (rw small at h)
      | inr large ↦ absurd (let z : ⊥ = ground arith in z)
    ]
  where
    decoded :
        (o : Option Value)
        → validate_decoded codec serializer o ≡ returns v
        → (e : ClientStrokeEvent) × (client_event v ≡ some e) × IsValidEvent e
    decoded none k = absurd (let z : ⊥ = cc in z)
    decoded (some x) k = validated-returns (logical_value codec x) v k

abbrev pub IsValidRoomEvent : RoomStrokeEvent → Type 0
IsValidRoomEvent (from_client e) = IsValidEvent e
IsValidRoomEvent (auto_finalized id) = is_identifier 20 128 id ≡ true

pub plain_room_event : (r : RoomStrokeEvent) → is_plain (to_binary_wire_event r) ≡ true
unfolding is_plain to_binary_wire_event
plain_room_event (from_client e) = plain_parts e.client_seq e.id messagepack e.op
plain_room_event (auto_finalized id) = refl

-- The server's own event is not a client's.
parse_auto :
    (id : String)
    → is_identifier 20 128 id ≡ true
    → parse_room_event (to_binary_wire_event (auto_finalized id))
      ≡ returns (object (auto_finalized_fields id))
unfolding parse_room_event to_binary_wire_event from_binary_wire_event validate_client_event
    validate_common opcode_of
parse_auto id v = rw v

pub parse_room_event-to_binary_wire_event :
    (r : RoomStrokeEvent)
    → IsValidRoomEvent r
    → parse_room_event (to_binary_wire_event r) ≡ returns (object (room_event_fields r))
unfolding parse_room_event
parse_room_event-to_binary_wire_event (from_client e) v =
    ap (λ w. parse_validated w (validate_client_event w))
      (logical_parts e.client_seq e.id messagepack e.op)
    ∙ ap (parse_validated (event_value e)) (validate_client_event-IsValidEvent e v)
parse_room_event-to_binary_wire_event (auto_finalized id) v = parse_auto id v

-- An event of the log comes back from its frame, a client's and the server's own alike.
pub decode_room_event-encode_room_event :
    (packer : Serializer) (r : RoomStrokeEvent)
    → IsValidRoomEvent r
    → packer.byte_length (packer.encode (to_binary_wire_event r)) ≤ max_frame_bytes
    → (frame : packer.Frame) × (encode_room_event packer r ≡ returns frame)
      × (decode_room_event packer frame ≡ returns (object (room_event_fields r)))
unfolding encode_room_event decode_room_event
decode_room_event-encode_room_event packer r v small = (
  packer.encode (to_binary_wire_event r),
  within_frame-small _ small,
  within_frame-small _ small
      ∙ ap (parse_decoded packer) (packer.decode-encode _ (plain_room_event r))
      ∙ parse_room_event-to_binary_wire_event r v,
)
