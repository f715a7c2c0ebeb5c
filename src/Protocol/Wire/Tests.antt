-- ===== src/Protocol/Wire/Tests.antt =====
-- packages/protocol/src/codec.ts and validation.ts: frames and events on which the theorems are run.
use echa.Prelude.{◌≡◌, refl, String, true, some, List, [], ◌∷◌, arith, All}
use echa.Protocol.Messages.{
  brush, StrokeStyle, ClientStrokeEvent, auto_finalized, append, invalid_field,
}
use echa.Protocol.Value.{
  Value, null, text, array, object, int, num, plus, cons, nil, field, no_fields, Serializer,
  is_plain,
}
use echa.Protocol.Value.Text.{is_identifier, is_color}
use echa.Protocol.Validation.Event.{
  of_key, of_part, element, failure, validate_exact_keys, validate_point, validate_common,
  validate_begin, validate_points, validate_append, opcode_of, validate_op, validate_client_event,
}
use echa.Protocol.Validation.{Coordinate}
use echa.Protocol.Outbox.{StrokeOutbox, empty_outbox}
use echa.Protocol.Outbox.Strokes.{Move, draw_stroke}
use echa.Protocol.Wire.{
  returns, json, messagepack, event_value, room_event_fields, to_binary_wire_event,
  from_binary_wire_event, parse_room_event, encode_room_event, decode_room_event,
}
use echa.Protocol.Wire.Codec.{encode_event, decode_event}
use echa.Protocol.Wire.Valid.{IsValidEvent, client_event, read_op}
use echa.Protocol.Wire.RoundTrip.{
  decode_event-encode_event, decode_event-IsValidEvent, decode_room_event-encode_room_event,
}
use echa.Protocol.Wire.Sent.{Passes, draw_stroke-validate_client_event}

runs : Unit {0}
unfolding is_identifier is_color validate_exact_keys validate_point validate_common validate_begin
    validate_points validate_append opcode_of validate_op validate_client_event to_binary_wire_event
    from_binary_wire_event parse_room_event encode_room_event decode_room_event encode_event
    decode_event client_event read_op is_plain
runs = tt

-- A serializer that keeps the value, each in 100 bytes.
abbrev keeping : Serializer
keeping = record {
  Frame = Value;
  byte_length = λ v. 100;
  encode = λ v. v;
  decode = λ v. some v;
  decode-encode = λ v h. refl;
}

abbrev id : String
id = "stroke-0123456789-abc"

abbrev style : StrokeStyle
style = record { tool = brush; color = "#0a1b2c"; size = 4_500; opacity = 85 }

abbrev two_points : ClientStrokeEvent
two_points = record {
  client_seq = 7;
  id = id;
  op =
      append (
        record { x = 1_025; y = 99_950; dt = 16 }
        ∷ record { x = 1_100; y = 100_000; dt = 33 }
        ∷ []);
}

two_points-IsValidEvent : IsValidEvent two_points
unfolding runs
two_points-IsValidEvent = record {
  is_positive = omega arith;
  is_safe = omega arith;
  has_id = refl;
  valid_op = (
    omega arith,
    omega arith,
    (
      record { x_within = omega arith; y_within = omega arith; dt_within = omega arith },
      (record { x_within = omega arith; y_within = omega arith; dt_within = omega arith }, tt),
    ),
    (omega arith, (omega arith, tt)),
  );
}

-- An unknown field, a missing one and a late time are all reported.
faulty_append :
    validate_client_event (
      object (
        field "v" (int 1) (
          field "op" (text "stroke.append") (
            field "clientSeq" (int 3) (
              field "extra" null (
                field "points"
                  (array
                    (cons (array (cons (int 5) (cons (int 5) (cons (num (plus 500)) nil)))) nil))
                  no_fields))))))
    ≡ failure (
        record { code = invalid_field; path = of_key "id" }
        ∷ record { code = invalid_field; path = of_key "extra" }
        ∷ record { code = invalid_field; path = of_key "id" }
        ∷ record { code = invalid_field; path = of_part (element 0) 2 }
        ∷ [])
unfolding runs
faulty_append = refl

decode_event-encode_event_example :
    (frame : Value) × (encode_event messagepack keeping two_points ≡ returns frame)
    × (decode_event messagepack keeping frame ≡ returns (event_value two_points))
    × (client_event (event_value two_points) ≡ some two_points)
decode_event-encode_event_example =
    decode_event-encode_event messagepack keeping two_points two_points-IsValidEvent (omega arith)

decoded_by_hand :
    decode_event json keeping (event_value two_points) ≡ returns (event_value two_points)
unfolding runs
decoded_by_hand = refl

decode_event-IsValidEvent_example :
    (e : ClientStrokeEvent) × (client_event (event_value two_points) ≡ some e) × IsValidEvent e
decode_event-IsValidEvent_example =
    decode_event-IsValidEvent json keeping (event_value two_points) (event_value two_points)
      decoded_by_hand

id_matches : is_identifier 20 128 id ≡ true
unfolding runs
id_matches = refl

color_matches : is_color "#0a1b2c" ≡ true
unfolding runs
color_matches = refl

decode_room_event-encode_room_event_example :
    (frame : Value) × (encode_room_event keeping (auto_finalized id) ≡ returns frame)
    × (decode_room_event keeping frame ≡ returns (object (room_event_fields (auto_finalized id))))
decode_room_event-encode_room_event_example =
    decode_room_event-encode_room_event keeping (auto_finalized id) id_matches (omega arith)

abbrev start : Move
start = record { x = Coordinate.at 10_000; y = Coordinate.before 3_000; seen_at = 1_000 }

abbrev moves : List Move
moves =
    record { x = Coordinate.at 10_254; y = Coordinate.at 20_006; seen_at = 1_010 }
    ∷ record { x = Coordinate.at 1_200_000; y = Coordinate.at 30_000; seen_at = 1_060 }
    ∷ []

draw_stroke-validate_client_event_example :
    (o' : StrokeOutbox) × (es : List ClientStrokeEvent) × (draw_stroke id style start moves 1_080
        empty_outbox
      ≡ some (o', es))
    × All Passes es
draw_stroke-validate_client_event_example =
    draw_stroke-validate_client_event id style start moves 1_080 empty_outbox refl (omega arith)
      id_matches
      (record {
        is_known_color = color_matches;
        size_low = omega arith;
        size_high = omega arith;
        opacity_low = omega arith;
        opacity_high = omega arith;
      })
      (omega arith, (omega arith, tt)) (omega arith) (omega arith)
