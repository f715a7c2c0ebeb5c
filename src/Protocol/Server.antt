-- ===== src/Protocol/Server.antt =====
-- packages/protocol/src/server-codec.ts: `parseServerMessage` and the frames of the server's messages.
-- The fields of a message are held in the order in which its parser gives them. Every failure of the
-- parser is a TypeError, `none`.
pub mod Records
pub mod Read
pub mod Parser
pub mod Codec
pub mod Valid
pub mod Inverses
pub mod RoundTrip
pub mod Frames
mod Tests
use echa.Prelude.{
  ℕ, ◌+◌, ◌*◌, String, Bool, true, false, not, ◌&&◌, ◌||◌, Option, none, some, List, [], ◌∷◌, leb,
  ◌==◌, same, if◌then◌else◌, length, map, ◌>>=◌, ◌>>◌, guard,
}
use echa.Protocol.Limits.{
  protocol_version, canvas_width, canvas_height, max_room_connections,
  max_chat_display_name_characters, max_chat_avatar_url_characters, max_chat_message_characters,
  max_chat_messages, room_activity_event_limit, room_activity_payload_limit_bytes,
}
use echa.Protocol.Messages.{
  RoomStrokeEvent, RejectCode, unsupported_version, unknown_opcode, unauthorized, role_forbidden,
  room_not_active, rate_limited, message_too_large, invalid_field, out_of_order, duplicate,
  stroke_not_found, stroke_already_final, room_limit_reached, service_emergency_stop,
  AcceptedStrokeEvent, RoomRole, host, participant, viewer,
}
use echa.Protocol.Value.{
  plus, Value, null, bool, num, text, array, object, Fields, no_fields, field, get, int, whole,
  text_of, is_text, is_bool, is_int, to_list, of_list, number_between, has_exact_keys, Serializer,
}
use echa.Protocol.Value.Text.{
  codes, starts_with, is_identifier, is_hash, is_sized, is_counted, is_trimmed, utf16_length,
}
use echa.Protocol.Wire.{
  Outcome, returns, throws, not_valid, not_decoded, room_event_fields, to_binary_wire_event,
  parse_room_event, within_frame,
}
use echa.Room.State.{
  RoomCloseReason, by_host, empty_timeout, max_duration, activity_limit, by_admin, by_account,
  by_probe,
}

pub record PresenceMember : Type 0 where
  pub actor : String
  pub role : RoomRole

-- Coordinates are thousandths of a pixel.
pub data RemoteCursor : Type 0 where
  hidden : RemoteCursor
  visible : (x y : ℕ) → RemoteCursor

-- The fields `displayName` and `avatarUrl`, which messages of an older version lack.
pub data ChatProfile : Type 0 where
  no_profile : ChatProfile
  profile : (display_name avatar_url : Option String) → ChatProfile

pub record ChatMessage : Type 0 where
  pub id : String
  pub seq : ℕ
  pub actor : String
  pub role : RoomRole
  pub profile : ChatProfile
  pub text : String
  pub created_at : ℕ

-- `PublicSnapshotManifest`; the fields with one value are constants.
pub record PublicSnapshotManifest : Type 0 where
  pub job_id : String
  pub room_id : String
  pub base_room_seq : ℕ
  pub generation : ℕ
  pub object_bytes : ℕ
  pub object_hash : String
  pub rgba_hash : String
  pub created_at : ℕ

pub data RemovalReason : Type 0 where
  kicked room_banned service_banned : RemovalReason

-- `RoomUpdatedMessage`.
pub data RoomUpdate : Type 0 where
  to_waiting to_suspended : (changed_at : ℕ) → RoomUpdate
  to_active to_idle : (changed_at : ℕ) (last_activity_at : Option ℕ) → RoomUpdate
  to_closing : (close_request_id : String) (reason : RoomCloseReason) (started_at : ℕ) → RoomUpdate

pub data ServerMessage : Type 0 where
  accepted : AcceptedStrokeEvent → ServerMessage
  ready : (room_seq : ℕ) → ServerMessage
  reject : (client_seq : Option ℕ) (code : RejectCode) (message : String) → ServerMessage
  replay : List AcceptedStrokeEvent → ServerMessage
  snapshot : PublicSnapshotManifest → (read_token : String) (expires_at : ℕ) → ServerMessage
  presence : List PresenceMember → ServerMessage
  cursor : (actor : String) → RemoteCursor → ServerMessage
  chat_message : ChatMessage → ServerMessage
  chat_history : List ChatMessage → ServerMessage
  room_activity : (level event_count payload_bytes : ℕ) → ServerMessage
  room_time : (warning_minutes ends_at remaining_ms : ℕ) → ServerMessage
  room_removed : RemovalReason → (action_id : String) → ServerMessage
  room_updated : RoomUpdate → ServerMessage
  room_closed :
      (close_request_id : String) (reason : RoomCloseReason) (closed_at : ℕ) → ServerMessage

-- The texts of the enumerations.
abbrev pub role_text : RoomRole → String
role_text host = "host"
role_text participant = "participant"
role_text viewer = "viewer"

abbrev pub code_text : RejectCode → String
code_text unsupported_version = "UNSUPPORTED_VERSION"
code_text unknown_opcode = "UNKNOWN_OPCODE"
code_text unauthorized = "UNAUTHORIZED"
code_text role_forbidden = "ROLE_FORBIDDEN"
code_text room_not_active = "ROOM_NOT_ACTIVE"
code_text rate_limited = "RATE_LIMITED"
code_text message_too_large = "MESSAGE_TOO_LARGE"
code_text invalid_field = "INVALID_FIELD"
code_text out_of_order = "OUT_OF_ORDER"
code_text duplicate = "DUPLICATE"
code_text stroke_not_found = "STROKE_NOT_FOUND"
code_text stroke_already_final = "STROKE_ALREADY_FINAL"
code_text room_limit_reached = "ROOM_LIMIT_REACHED"
code_text service_emergency_stop = "SERVICE_EMERGENCY_STOP"

abbrev pub reason_text : RoomCloseReason → String
reason_text by_host = "host"
reason_text empty_timeout = "empty_timeout"
reason_text max_duration = "max_duration"
reason_text activity_limit = "activity_limit"
reason_text by_admin = "admin"
reason_text by_account = "account"
reason_text by_probe = "probe"

abbrev pub removal_text : RemovalReason → String
removal_text kicked = "kicked"
removal_text room_banned = "room_banned"
removal_text service_banned = "service_banned"

abbrev pub nullable_text : Option String → Value
nullable_text none = null
nullable_text (some s) = text s

abbrev pub nullable_int : Option ℕ → Value
nullable_int none = null
nullable_int (some n) = int n
