-- ===== src/Protocol/Server/Tests.antt =====
-- packages/protocol/src/server-codec.ts: messages on which the theorems are run.
use echa.Prelude.{◌≡◌, refl, false, none, some, [], ◌∷◌, arith}
use echa.Protocol.Messages.{host}
use echa.Protocol.Value.{Value, Serializer, text, object, field, no_fields, int, bool}
use echa.Protocol.Value.Text.{is_identifier, is_hash, is_sized, is_counted, is_trimmed}
use echa.Protocol.Wire.{returns}
use echa.Protocol.Server.{ServerMessage, ChatMessage, profile, chat_history}
use echa.Protocol.Server.Records.{message_value}
use echa.Protocol.Server.Codec.{
  parse_server_message, encode_server_message, decode_server_message, parse_reject, parse_updated,
}
use echa.Protocol.Server.Parser.{parse_chat_message, parse_chat_history, parse_remote_cursor}
use echa.Protocol.Server.Valid.{IsChat}
use echa.Protocol.Server.Frames.{decode_server_message-encode_server_message}

runs : Unit {0}
unfolding is_identifier is_hash is_sized is_counted is_trimmed parse_server_message
    parse_chat_message parse_chat_history parse_remote_cursor parse_reject parse_updated
runs = tt

-- A serializer that keeps the value, each in 900 bytes.
abbrev keeping : Serializer
keeping = record {
  Frame = Value;
  byte_length = λ v. 900;
  encode = λ v. v;
  decode = λ v. some v;
  decode-encode = λ v h. refl;
}

abbrev greeting : ChatMessage
greeting = record {
  id = "chat-0001";
  seq = 12;
  actor = "actor-0001";
  role = host;
  profile = profile (some "Ann Lee") none;
  text = "hello";
  created_at = 1_700_000_000_000;
}

abbrev history : ServerMessage
history = chat_history (greeting ∷ [])

greeting-IsChat : IsChat greeting
unfolding runs
greeting-IsChat = record {
  id = refl;
  seq = (omega arith, omega arith);
  actor = refl;
  profile = (refl, tt);
  text = refl;
  at = omega arith;
}

decode_server_message-encode_server_message_example :
    (frame : Value) × (encode_server_message keeping history ≡ returns frame)
    × (decode_server_message keeping frame ≡ returns (message_value history))
decode_server_message-encode_server_message_example =
    decode_server_message-encode_server_message keeping history ((greeting-IsChat, tt), omega arith)
      (omega arith)

-- A message of no room: a blank before the name, a cursor that is hidden somewhere, a code that is
-- not known.
blank_name :
    parse_chat_message (
      object (
        field "id" (text "chat-0001") (
          field "seq" (int 12) (
            field "actor" (text "actor-0001") (
              field "role" (text "host") (
                field "displayName" (text " Ann") (
                  field "avatarUrl"
                    (text "https://a")
                    (field "text" (text "hello") (field "createdAt" (int 1) no_fields)))))))))
    ≡ none
unfolding runs
blank_name = refl

hidden_somewhere :
    parse_server_message (
      object (
        field "type" (text "cursor") (
          field "actor"
            (text "actor-0001")
            (field "visible" (bool false) (field "x" (int 1) (field "y" (int 1) no_fields))))))
    ≡ none
unfolding runs
hidden_somewhere = refl

unknown_code :
    parse_server_message (
      object (
        field "type"
          (text "reject")
          (field "code" (text "NOT_FOUND") (field "message" (text "no") no_fields))))
    ≡ none
unfolding runs
unknown_code = refl
