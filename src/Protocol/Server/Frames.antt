-- ===== src/Protocol/Server/Frames.antt =====
-- packages/protocol/src/server-codec.ts: `encodeServerMessage` and `decodeServerMessage`.
use echa.Prelude.{◌≤◌, ◌≡◌, refl, ap, ◌∙◌, true, none, some, List, [], ◌∷◌, map}
use echa.Protocol.Limits.{max_frame_bytes}
use echa.Protocol.Messages.{AcceptedStrokeEvent}
use echa.Protocol.Value.{Value, of_list, is_plain, plain_items, plain_fields, Serializer}
use echa.Protocol.Wire.{returns, to_binary_wire_event}
use echa.Protocol.Wire.RoundTrip.{plain_room_event, within_frame-small}
use echa.Protocol.Server.{
  PresenceMember, hidden, visible, ChatProfile, no_profile, profile, ChatMessage, to_waiting,
  to_suspended, to_active, to_idle, to_closing, ServerMessage, accepted, ready, reject, replay,
  snapshot, presence, cursor, chat_message, chat_history, room_activity, room_time, room_removed,
  room_updated, room_closed,
}
use echa.Protocol.Server.Records.{
  accepted_with, wire_message, message_value, member_value, chat_value,
}
use echa.Protocol.Server.Codec.{
  parse_server_message, parse_frame, outcome_of, encode_server_message, decode_server_message,
}
use echa.Protocol.Server.Valid.{IsValidMessage}
use echa.Protocol.Server.RoundTrip.{
  chat_with, accepted_back, ready_back, reject-Back, replay-Back, snapshot-Back, presence-Back,
  cursor-Back, chat_message-Back, chat_history-Back, activity-Back, time-Back, removed-Back,
  closed-Back, updated-Back,
}

-- Each message that a room may send is read back as the record of the message.
pub parse_server_message-wire_message :
    (m : ServerMessage)
    → IsValidMessage m
    → parse_server_message (wire_message m) ≡ some (message_value m)
unfolding parse_server_message
parse_server_message-wire_message (accepted a) v = accepted_back a v
parse_server_message-wire_message (ready seq) v = ready_back seq v
parse_server_message-wire_message (reject seq code message) v = reject-Back seq code message v
parse_server_message-wire_message (replay events) v = replay-Back events v
parse_server_message-wire_message (snapshot m token at) v = snapshot-Back m token at v
parse_server_message-wire_message (presence ms) v = presence-Back ms v
parse_server_message-wire_message (cursor actor c) v = cursor-Back actor c v
parse_server_message-wire_message (chat_message m) v = chat_message-Back m v
parse_server_message-wire_message (chat_history ms) v = chat_history-Back ms v
parse_server_message-wire_message (room_activity level events bytes) v =
    activity-Back level events bytes v
parse_server_message-wire_message (room_time minutes ends remaining) v =
    time-Back minutes ends remaining v
parse_server_message-wire_message (room_removed reason id) v = removed-Back reason id v
parse_server_message-wire_message (room_updated u) v = updated-Back u v
parse_server_message-wire_message (room_closed id reason at) v = closed-Back id reason at v

plain_list {ℓ} :
    {A : Type ℓ} (g : A → Value)
    → ((a : A) → is_plain (g a) ≡ true)
    → (xs : List A) → plain_items (of_list (map g xs)) ≡ true
unfolding is_plain plain_items
plain_list g h [] = refl
plain_list g h (x ∷ xs) = rw (h x) (plain_list g h xs)

plain_accepted : (a : AcceptedStrokeEvent) → is_plain (accepted_with to_binary_wire_event a) ≡ true
unfolding is_plain plain_fields
plain_accepted a = rw (plain_room_event a.event) refl

plain_member : (m : PresenceMember) → is_plain (member_value m) ≡ true
unfolding is_plain plain_fields
plain_member m = refl

plain_profile : (m : ChatMessage) (p : ChatProfile) → is_plain (chat_value (chat_with m p)) ≡ true
unfolding is_plain plain_fields
plain_profile m no_profile = refl
plain_profile m (profile none none) = refl
plain_profile m (profile none (some url)) = refl
plain_profile m (profile (some name) none) = refl
plain_profile m (profile (some name) (some url)) = refl

plain_chat : (m : ChatMessage) → is_plain (chat_value m) ≡ true
plain_chat m = plain_profile m m.profile

plain_message : (m : ServerMessage) → is_plain (wire_message m) ≡ true
unfolding is_plain plain_items plain_fields
plain_message (accepted a) = plain_accepted a
plain_message (ready seq) = refl
plain_message (reject none code message) = refl
plain_message (reject (some seq) code message) = refl
plain_message (replay events) =
    rw (plain_list (accepted_with to_binary_wire_event) plain_accepted events) refl
plain_message (snapshot m token at) = refl
plain_message (presence ms) = rw (plain_list member_value plain_member ms) refl
plain_message (cursor actor hidden) = refl
plain_message (cursor actor (visible x y)) = refl
plain_message (chat_message m) = rw (plain_chat m) refl
plain_message (chat_history ms) = rw (plain_list chat_value plain_chat ms) refl
plain_message (room_activity level events bytes) = refl
plain_message (room_time minutes ends remaining) = refl
plain_message (room_removed reason id) = refl
plain_message (room_updated (to_waiting at)) = refl
plain_message (room_updated (to_suspended at)) = refl
plain_message (room_updated (to_active at none)) = refl
plain_message (room_updated (to_active at (some last))) = refl
plain_message (room_updated (to_idle at none)) = refl
plain_message (room_updated (to_idle at (some last))) = refl
plain_message (room_updated (to_closing id reason at)) = refl
plain_message (room_closed id reason at) = refl

-- Every message that a room may send comes back from its frame, if that is not too large.
pub decode_server_message-encode_server_message :
    (packer : Serializer) (m : ServerMessage)
    → IsValidMessage m
    → packer.byte_length (packer.encode (wire_message m)) ≤ max_frame_bytes
    → (frame : packer.Frame) × (encode_server_message packer m ≡ returns frame)
      × (decode_server_message packer frame ≡ returns (message_value m))
unfolding encode_server_message decode_server_message
decode_server_message-encode_server_message packer m v small = (
  packer.encode (wire_message m),
  within_frame-small _ small,
  within_frame-small _ small
      ∙ ap (parse_frame packer) (packer.decode-encode _ (plain_message m))
      ∙ ap outcome_of (parse_server_message-wire_message m v),
)
