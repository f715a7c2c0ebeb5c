-- ===== src/Protocol/Realtime.antt =====
-- packages/protocol/src/realtime-codec.ts: the client's messages other than stroke events. Every
-- failure of a parser is a TypeError, `none`. Coordinates are thousandths of a pixel.
pub mod RoundTrip
mod Tests
use echa.Prelude.{
  ℕ, ◌*◌, String, Bool, true, false, not, ◌&&◌, Option, none, some, List, [], ◌∷◌, if◌then◌else◌,
  ◌>>=◌, ◌>>◌, guard,
}
use echa.Protocol.Limits.{
  protocol_version, canvas_width, canvas_height, max_chat_message_characters,
}
use echa.Protocol.Value.{
  Value, bool, num, plus, text, object, Fields, no_fields, field, get, int, is_text, is_bool,
  is_int, text_of, number_between, has_exact_keys, Serializer,
}
use echa.Protocol.Value.Text.{is_counted, trim}
use echa.Protocol.Wire.{Outcome, returns, throws, not_valid, not_decoded, within_frame}
use echa.Protocol.Server.Read.{identifier}

pub data ClientRealtimeMessage : Type 0 where
  cursor_hidden : ClientRealtimeMessage
  cursor_at : (x y : ℕ) → ClientRealtimeMessage
  chat_send : (id text : String) → ClientRealtimeMessage
  room_start : (request_id : String) → ClientRealtimeMessage
  room_close : (request_id : String) → ClientRealtimeMessage

abbrev pub with_version : (type : String) → Fields → Fields
with_version type rest = field "v" (int protocol_version) (field "type" (text type) rest)

abbrev pub client_fields : ClientRealtimeMessage → Fields
client_fields cursor_hidden = with_version "cursor" (field "visible" (bool false) no_fields)
client_fields (cursor_at x y) =
    with_version "cursor"
      (field "visible" (bool true) (field "x" (num (plus x)) (field "y" (num (plus y)) no_fields)))
client_fields (chat_send id words) =
    with_version "chat.send" (field "id" (text id) (field "text" (text words) no_fields))
client_fields (room_start id) = with_version "room.start" (field "requestId" (text id) no_fields)
client_fields (room_close id) = with_version "room.close" (field "requestId" (text id) no_fields)

abbrev pub client_value : ClientRealtimeMessage → Value
client_value m = object (client_fields m)

-- `Number.isFinite(value) && value >= 0 && value <= maximum`.
abbrev pub canvas_coordinate : Option Value → ℕ → Option ℕ
canvas_coordinate v maximum = number_between 0 (maximum * 1_000) v

unfoldable pub parse_client_cursor_message : Fields → Option ClientRealtimeMessage
parse_client_cursor_message fs = do
  guard (is_int protocol_version (get "v" fs))
  (if is_text "cursor" (get "type" fs)
        && is_bool false (get "visible" fs)
        && has_exact_keys fs ("v" ∷ "type" ∷ "visible" ∷ [])
      then some cursor_hidden
      else (do
        guard (is_text "cursor" (get "type" fs))
        guard (is_bool true (get "visible" fs))
        guard (has_exact_keys fs ("v" ∷ "type" ∷ "visible" ∷ "x" ∷ "y" ∷ []))
        x ← canvas_coordinate (get "x" fs) canvas_width
        y ← canvas_coordinate (get "y" fs) canvas_height
        some (cursor_at x y)))

unfoldable pub parse_client_chat_message : Fields → Option ClientRealtimeMessage
parse_client_chat_message fs = do
  guard (has_exact_keys fs ("v" ∷ "type" ∷ "id" ∷ "text" ∷ []))
  guard (is_int protocol_version (get "v" fs))
  guard (is_text "chat.send" (get "type" fs))
  id ← identifier (get "id" fs)
  words ← text_of (get "text" fs)
  guard (is_counted 1 max_chat_message_characters (trim words))
  some (chat_send id (trim words))

-- `parseClientRoomStartMessage` and `parseClientRoomCloseMessage`.
unfoldable pub parse_client_room_message :
    (type : String) → (String → ClientRealtimeMessage) → Fields → Option ClientRealtimeMessage
parse_client_room_message type make fs = do
  guard (has_exact_keys fs ("v" ∷ "type" ∷ "requestId" ∷ []))
  guard (is_int protocol_version (get "v" fs))
  guard (is_text type (get "type" fs))
  id ← identifier (get "requestId" fs)
  some (make id)

unfoldable pub parse_client_realtime_message : Value → Option ClientRealtimeMessage
parse_client_realtime_message (object fs) =
    if is_text "cursor" (get "type" fs)
    then parse_client_cursor_message fs
    else if is_text "chat.send" (get "type" fs)
    then parse_client_chat_message fs
    else if is_text "room.start" (get "type" fs)
    then parse_client_room_message "room.start" room_start fs
    else if is_text "room.close" (get "type" fs)
    then parse_client_room_message "room.close" room_close fs
    else none
parse_client_realtime_message _ = none

-- What `encodeClientRealtimeMessage` makes of a message before it prints it.
abbrev pub parse_own : ClientRealtimeMessage → Option ClientRealtimeMessage
parse_own cursor_hidden = parse_client_cursor_message (client_fields cursor_hidden)
parse_own (cursor_at x y) = parse_client_cursor_message (client_fields (cursor_at x y))
parse_own (chat_send id words) = parse_client_chat_message (client_fields (chat_send id words))
parse_own (room_start id) =
    parse_client_room_message "room.start" room_start (client_fields (room_start id))
parse_own (room_close id) =
    parse_client_room_message "room.close" room_close (client_fields (room_close id))

-- `message.type !== "cursor"` throws.
abbrev pub cursor_only : Outcome ClientRealtimeMessage → Outcome ClientRealtimeMessage
cursor_only (returns (chat_send id words)) = throws not_valid
cursor_only (returns (room_start id)) = throws not_valid
cursor_only (returns (room_close id)) = throws not_valid
cursor_only r = r

-- `json` is `JSON` with the encoder of UTF-8.
module _ (json : Serializer) where
  abbrev pub encode_parsed : Option ClientRealtimeMessage → Outcome json.Frame
  encode_parsed none = throws not_valid
  encode_parsed (some m) =
      let frame = json.encode (client_value m) in
      within_frame (json.byte_length frame) (returns frame)

  unfoldable pub encode_client_realtime_message : ClientRealtimeMessage → Outcome json.Frame
  encode_client_realtime_message m = encode_parsed (parse_own m)

  abbrev pub outcome_of : Option ClientRealtimeMessage → Outcome ClientRealtimeMessage
  outcome_of none = throws not_valid
  outcome_of (some m) = returns m

  abbrev pub parse_frame : Option Value → Outcome ClientRealtimeMessage
  parse_frame none = throws not_decoded
  parse_frame (some v) = outcome_of (parse_client_realtime_message v)

  unfoldable pub decode_client_realtime_message : json.Frame → Outcome ClientRealtimeMessage
  decode_client_realtime_message frame =
      within_frame (json.byte_length frame) (parse_frame (json.decode frame))

  abbrev pub decode_client_cursor_message : json.Frame → Outcome ClientRealtimeMessage
  decode_client_cursor_message frame = cursor_only (decode_client_realtime_message frame)
