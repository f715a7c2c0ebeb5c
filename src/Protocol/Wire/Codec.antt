-- ===== src/Protocol/Wire/Codec.antt =====
-- packages/protocol/src/codec.ts: the frames of a client's event.
use echa.Prelude.{Option, none, some, [], ◌∷◌}
use echa.Protocol.Messages.{ClientStrokeEvent, from_client}
use echa.Protocol.Value.{Value, Serializer}
use echa.Protocol.Validation.Event.{
  ValidationResult, success, failure, issue, whole_value, validate_client_event,
}
use echa.Protocol.Wire.{
  Outcome, returns, throws, decode_error, CodecName, json, messagepack, event_value,
  to_binary_wire_event, from_binary_wire_event, within_frame,
}

-- What the codec is given, and what is made of what it gives back.
abbrev pub wire_value : CodecName → ClientStrokeEvent → Value
wire_value json e = event_value e
wire_value messagepack e = to_binary_wire_event (from_client e)

abbrev pub logical_value : CodecName → Value → Value
logical_value json v = v
logical_value messagepack v = from_binary_wire_event v

abbrev pub validated : ValidationResult → Outcome Value
validated (success v) = returns v
validated (failure is) = throws (decode_error (failure is))

module _ (codec : CodecName) (serializer : Serializer) where
  abbrev pub encode_validated : ClientStrokeEvent → ValidationResult → Outcome serializer.Frame
  encode_validated e (failure is) = throws (decode_error (failure is))
  encode_validated e (success v) =
      let frame = serializer.encode (wire_value codec e) in
      within_frame (serializer.byte_length frame) (returns frame)

  unfoldable pub encode_event : ClientStrokeEvent → Outcome serializer.Frame
  encode_event e = encode_validated e (validate_client_event (event_value e))

  abbrev pub validate_decoded : Option Value → Outcome Value
  validate_decoded none = throws (decode_error (failure (issue whole_value ∷ [])))
  validate_decoded (some v) = validated (validate_client_event (logical_value codec v))

  unfoldable pub decode_event : serializer.Frame → Outcome Value
  decode_event frame =
      within_frame (serializer.byte_length frame) (validate_decoded (serializer.decode frame))
