-- ===== src/Protocol/Realtime/Tests.antt =====
-- packages/protocol/src/realtime-codec.ts: messages on which the theorems are run.
use echa.Prelude.{◌≡◌, refl, none, some, arith}
use echa.Protocol.Value.{Value, Serializer}
use echa.Protocol.Value.Text.{is_identifier, is_counted, trim}
use echa.Protocol.Wire.{returns}
use echa.Protocol.Realtime.{
  ClientRealtimeMessage, chat_send, cursor_at, client_value, parse_client_realtime_message,
  parse_client_cursor_message, parse_client_chat_message, encode_client_realtime_message,
  decode_client_realtime_message,
}
use echa.Protocol.Realtime.RoundTrip.{
  IsClientMessage, trimmed, decode_client_realtime_message-encode_client_realtime_message,
}

runs : Unit {0}
unfolding is_identifier is_counted trim parse_client_realtime_message parse_client_cursor_message
    parse_client_chat_message
runs = tt

-- A serializer that keeps the value, each in 120 bytes.
abbrev keeping : Serializer
keeping = record {
  Frame = Value;
  byte_length = λ v. 120;
  encode = λ v. v;
  decode = λ v. some v;
  decode-encode = λ v h. refl;
}

abbrev padded : ClientRealtimeMessage
padded = chat_send "chat-0001" "  two words "

padded_is_trimmed : trimmed padded ≡ chat_send "chat-0001" "two words"
unfolding runs
padded_is_trimmed = refl

padded-IsClientMessage : IsClientMessage padded
unfolding runs
padded-IsClientMessage = (refl, refl)

blank_refused : parse_client_realtime_message (client_value (chat_send "chat-0001" "   ")) ≡ none
unfolding runs
blank_refused = refl

outside_refused : parse_client_realtime_message (client_value (cursor_at 20 90_000_000)) ≡ none
unfolding runs
outside_refused = refl

decode_client_realtime_message-encode_client_realtime_message_example :
    (frame : Value) × (encode_client_realtime_message keeping padded ≡ returns frame)
    × (decode_client_realtime_message keeping frame ≡ returns (trimmed padded))
decode_client_realtime_message-encode_client_realtime_message_example =
    decode_client_realtime_message-encode_client_realtime_message keeping padded
      padded-IsClientMessage (omega arith)
