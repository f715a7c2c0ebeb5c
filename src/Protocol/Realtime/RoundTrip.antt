-- ===== src/Protocol/Realtime/RoundTrip.antt =====
-- packages/protocol/src/realtime-codec.ts: the client's messages there and back.
use Prim.Native.Char.{Char, code}
use Prim.Native.String.{String}
use echa.Prelude.{
  leb_of_le, ◌*◌, ◌≤◌, ◌≡◌, refl, ap, sym, ◌∙◌, inl, inr, true, false, ◌&&◌, some, arith,
  Bool-cases,
}
use echa.Protocol.Limits.{max_frame_bytes, canvas_width, canvas_height, max_chat_message_characters}
use echa.Protocol.Value.{is_plain, plain_fields, Serializer}
use echa.Protocol.Value.Text.{
  is_space, drop_spaces, is_empty, trim_end, trim, is_counted, is_identifier,
}
use echa.Protocol.Wire.{returns}
use echa.Protocol.Wire.RoundTrip.{within_frame-small}
use echa.Protocol.Realtime.{
  ClientRealtimeMessage, cursor_hidden, cursor_at, chat_send, room_start, room_close, client_value,
  parse_client_cursor_message, parse_client_chat_message, parse_client_room_message,
  parse_client_realtime_message, parse_own, encode_parsed, encode_client_realtime_message,
  outcome_of, parse_frame, decode_client_realtime_message,
}

trim_end_again : (s : String) → trim_end (trim_end s) ≡ trim_end s
trim_end_again String.[] = refl
trim_end_again (String.◌∷◌ c s) = elim (Bool-cases (is_space (code c) && is_empty (trim_end s))) [
  | inl blank ↦ rw blank refl
  | inr kept ↦ rw kept (rw (trim_end_again s) (rw kept refl))
]

module _ (c : Char) (s : String) (first : is_space (code c) ≡ false) where
  drop_first : drop_spaces (String.◌∷◌ c s) ≡ String.◌∷◌ c s
  drop_first = rw first refl

  end_first : trim_end (String.◌∷◌ c s) ≡ String.◌∷◌ c (trim_end s)
  end_first = rw first refl

-- A text that begins with no space stays so.
drop_spaces_end : (s : String) → drop_spaces (trim_end (drop_spaces s)) ≡ trim_end (drop_spaces s)
drop_spaces_end String.[] = refl
drop_spaces_end (String.◌∷◌ c s) = elim (Bool-cases (is_space (code c))) [
  | inl space ↦ rw space (drop_spaces_end s)
  | inr first ↦
      ap (λ t. drop_spaces (trim_end t)) (drop_first c s first)
      ∙ ap drop_spaces (end_first c s first)
      ∙ drop_first c (trim_end s) first
      ∙ sym (end_first c s first)
      ∙ ap trim_end (sym (drop_first c s first))
]

pub trim_again : (s : String) → trim (trim s) ≡ trim s
unfolding trim
trim_again s = ap trim_end (drop_spaces_end s) ∙ trim_end_again (drop_spaces s)

-- A message that a client may send, and the message with its text trimmed.
abbrev pub IsClientMessage : ClientRealtimeMessage → Type 0
IsClientMessage cursor_hidden = Unit
IsClientMessage (cursor_at x y) = (x ≤ canvas_width * 1_000) × (y ≤ canvas_height * 1_000)
IsClientMessage (chat_send id words) =
    (is_identifier 8 128 id ≡ true) × (is_counted 1 max_chat_message_characters (trim words) ≡ true)
IsClientMessage (room_start id) = is_identifier 8 128 id ≡ true
IsClientMessage (room_close id) = is_identifier 8 128 id ≡ true

abbrev pub trimmed : ClientRealtimeMessage → ClientRealtimeMessage
trimmed (chat_send id words) = chat_send id (trim words)
trimmed m = m

parse_own_lem : (m : ClientRealtimeMessage) → IsClientMessage m → parse_own m ≡ some (trimmed m)
unfolding parse_client_cursor_message parse_client_chat_message parse_client_room_message
parse_own_lem cursor_hidden h = refl
parse_own_lem (cursor_at x y) h =
    rw
      (
        leb_of_le 0 x (omega arith),
        leb_of_le 0 y (omega arith),
        leb_of_le x _ h.0,
        leb_of_le y _ h.1,
      )
      refl
parse_own_lem (chat_send id words) h = rw (h.0, h.1) refl
parse_own_lem (room_start id) h = rw h refl
parse_own_lem (room_close id) h = rw h refl

-- The parser by the type does what the parser of the type does.
parse_typed_lem :
    (m : ClientRealtimeMessage) → parse_client_realtime_message (client_value m) ≡ parse_own m
unfolding parse_client_realtime_message
parse_typed_lem cursor_hidden = refl
parse_typed_lem (cursor_at x y) = refl
parse_typed_lem (chat_send id words) = refl
parse_typed_lem (room_start id) = refl
parse_typed_lem (room_close id) = refl

trimmed_valid : (m : ClientRealtimeMessage) → IsClientMessage m → IsClientMessage (trimmed m)
trimmed_valid cursor_hidden h = h
trimmed_valid (cursor_at x y) h = h
trimmed_valid (chat_send id words) h = (h.0, rw (trim_again words) h.1)
trimmed_valid (room_start id) h = h
trimmed_valid (room_close id) h = h

trimmed_again : (m : ClientRealtimeMessage) → trimmed (trimmed m) ≡ trimmed m
trimmed_again cursor_hidden = refl
trimmed_again (cursor_at x y) = refl
trimmed_again (chat_send id words) = ap (chat_send id) (trim_again words)
trimmed_again (room_start id) = refl
trimmed_again (room_close id) = refl

plain_client : (m : ClientRealtimeMessage) → is_plain (client_value m) ≡ true
unfolding is_plain plain_fields
plain_client cursor_hidden = refl
plain_client (cursor_at x y) = refl
plain_client (chat_send id words) = refl
plain_client (room_start id) = refl
plain_client (room_close id) = refl

-- A message that a client may send comes back from its frame, if that is not too large, with the
-- text of a chat message trimmed.
pub decode_client_realtime_message-encode_client_realtime_message :
    (json : Serializer) (m : ClientRealtimeMessage)
    → IsClientMessage m
    → json.byte_length (json.encode (client_value (trimmed m))) ≤ max_frame_bytes
    → (frame : json.Frame) × (encode_client_realtime_message json m ≡ returns frame)
      × (decode_client_realtime_message json frame ≡ returns (trimmed m))
unfolding encode_client_realtime_message decode_client_realtime_message
decode_client_realtime_message-encode_client_realtime_message json m v small = (
  json.encode (client_value (trimmed m)),
  ap (encode_parsed json) (parse_own_lem m v) ∙ within_frame-small _ small,
  within_frame-small _ small
      ∙ ap (parse_frame json) (json.decode-encode _ (plain_client (trimmed m)))
      ∙ ap (outcome_of json) (
          parse_typed_lem (trimmed m)
          ∙ parse_own_lem (trimmed m) (trimmed_valid m v)
          ∙ ap some (trimmed_again m)),
)
