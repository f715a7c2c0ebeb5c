-- ===== src/Protocol/Server/Parser.antt =====
-- packages/protocol/src/server-codec.ts: the parsers of the messages.
use echa.Prelude.{
  ℕ, ◌+◌, ◌*◌, String, Bool, true, false, not, ◌&&◌, Option, none, some, List, [], ◌∷◌, leb, ◌==◌,
  if◌then◌else◌, ◌>>=◌, ◌>>◌, guard,
}
use echa.Protocol.Limits.{
  protocol_version, canvas_width, canvas_height, max_room_connections,
  max_chat_display_name_characters, max_chat_avatar_url_characters, max_chat_message_characters,
  max_chat_messages, room_activity_event_limit, room_activity_payload_limit_bytes,
}
use echa.Protocol.Value.{
  Value, object, Fields, get, whole, is_text, is_bool, is_int, number_between, has_exact_keys,
}
use echa.Protocol.Value.Text.{codes, starts_with, is_sized, is_counted, is_trimmed}
use echa.Protocol.Wire.{Outcome, returns, throws, parse_room_event}
use echa.Protocol.Server.{
  PresenceMember, hidden, visible, ChatProfile, no_profile, profile, ChatMessage,
  PublicSnapshotManifest, role_text, reason_text, removal_text,
}
use echa.Protocol.Server.Records.{
  accepted_fields, snapshot_fields, presence_fields, cursor_fields, activity_fields, time_fields,
  closed_fields, removed_fields, history_fields, chat_message_fields,
}
use echa.Protocol.Server.Read.{
  matching, nullable, one_of, number_of_list, each, items_to, roles, close_reasons, removal_reasons,
  is_name, identifier, hash, whole_from,
}

abbrev pub event_of : Outcome Value → Option Value
event_of (returns v) = some v
event_of (throws f) = none

-- `parseRoomEvent(value.event)` in a `try`; `undefined` is no event.
abbrev pub parse_event : Option Value → Option Value
parse_event none = none
parse_event (some v) = event_of (parse_room_event v)

unfoldable pub parse_accepted : Value → Option Value
parse_accepted (object fs) = do
  guard (
      has_exact_keys fs
        ("type" ∷ "roomSeq" ∷ "actor" ∷ "connectionId" ∷ "acceptedAt" ∷ "event" ∷ []))
  event ← parse_event (get "event" fs)
  guard (is_text "accepted" (get "type" fs))
  seq ← whole_from 1 (get "roomSeq" fs)
  actor ← matching is_name (get "actor" fs)
  connection ← matching is_name (get "connectionId" fs)
  at ← whole (get "acceptedAt" fs)
  some (object (accepted_fields seq actor connection at event))
parse_accepted _ = none

abbrev pub manifest_keys : List String
manifest_keys =
    "v" ∷ "jobId" ∷ "roomId" ∷ "baseRoomSeq" ∷ "protocolVersion" ∷ "rendererVersion"
    ∷ "canvasGeneration" ∷ "generation" ∷ "codec" ∷ "width" ∷ "height" ∷ "objectBytes"
    ∷ "objectHash" ∷ "rgbaHash" ∷ "createdAt" ∷ []

abbrev pub max_object_bytes : ℕ
max_object_bytes = canvas_width * canvas_height * 4 + 65_536

abbrev pub parse_manifest : Option Value → Option PublicSnapshotManifest
parse_manifest (some (object fs)) = do
  guard (has_exact_keys fs manifest_keys)
  guard (is_int 1 (get "v" fs))
  job ← identifier (get "jobId" fs)
  room ← identifier (get "roomId" fs)
  base ← whole (get "baseRoomSeq" fs)
  guard (is_int protocol_version (get "protocolVersion" fs))
  guard (is_int 1 (get "rendererVersion" fs))
  guard (is_int 2 (get "canvasGeneration" fs))
  generation ← whole_from 1 (get "generation" fs)
  guard (is_text "koge-rgba-deflate-v1" (get "codec" fs))
  guard (is_int canvas_width (get "width" fs))
  guard (is_int canvas_height (get "height" fs))
  bytes ← whole_from 1 (get "objectBytes" fs)
  guard (leb bytes max_object_bytes)
  object_hash ← hash (get "objectHash" fs)
  rgba_hash ← hash (get "rgbaHash" fs)
  at ← whole (get "createdAt" fs)
  some (record {
    job_id = job;
    room_id = room;
    base_room_seq = base;
    generation = generation;
    object_bytes = bytes;
    object_hash = object_hash;
    rgba_hash = rgba_hash;
    created_at = at;
  })
parse_manifest _ = none

unfoldable pub parse_snapshot : Fields → Option Value
parse_snapshot fs = do
  guard (has_exact_keys fs ("type" ∷ "manifest" ∷ "readToken" ∷ "expiresAt" ∷ []))
  m ← parse_manifest (get "manifest" fs)
  token ← hash (get "readToken" fs)
  at ← whole (get "expiresAt" fs)
  some (object (snapshot_fields m token at))

abbrev pub parse_member : Value → Option PresenceMember
parse_member (object fs) = do
  guard (has_exact_keys fs ("actor" ∷ "role" ∷ []))
  actor ← matching is_name (get "actor" fs)
  role ← one_of role_text roles (get "role" fs)
  some (record { actor = actor; role = role })
parse_member _ = none

unfoldable pub parse_presence : Fields → Option Value
parse_presence fs = do
  guard (has_exact_keys fs ("type" ∷ "members" ∷ []))
  vs ← items_to max_room_connections (get "members" fs)
  ms ← each parse_member vs
  some (object (presence_fields ms))

unfoldable pub parse_remote_cursor : Fields → Option Value
parse_remote_cursor fs = do
  actor ← matching is_name (get "actor" fs)
  (if is_bool false (get "visible" fs) && has_exact_keys fs ("type" ∷ "actor" ∷ "visible" ∷ [])
      then some (object (cursor_fields actor hidden))
      else (do
        guard (is_bool true (get "visible" fs))
        guard (has_exact_keys fs ("type" ∷ "actor" ∷ "visible" ∷ "x" ∷ "y" ∷ []))
        x ← number_between 0 (canvas_width * 1_000) (get "x" fs)
        y ← number_between 0 (canvas_height * 1_000) (get "y" fs)
        some (object (cursor_fields actor (visible x y)))))

abbrev pub is_display_name : String → Bool
is_display_name s = is_trimmed s && is_counted 1 max_chat_display_name_characters s

abbrev pub is_avatar_url : String → Bool
is_avatar_url s =
    is_sized 0 max_chat_avatar_url_characters s && starts_with (codes "https://") (codes s)

abbrev pub old_keys : List String
old_keys = "id" ∷ "seq" ∷ "actor" ∷ "role" ∷ "text" ∷ "createdAt" ∷ []

abbrev pub profile_keys : List String
profile_keys =
    "id" ∷ "seq" ∷ "actor" ∷ "role" ∷ "displayName" ∷ "avatarUrl" ∷ "text" ∷ "createdAt" ∷ []

abbrev pub parse_profile : Fields → Option ChatProfile
parse_profile fs =
    if has_exact_keys fs profile_keys
    then (do
      name ← nullable is_display_name (get "displayName" fs)
      url ← nullable is_avatar_url (get "avatarUrl" fs)
      some (profile name url))
    else if has_exact_keys fs old_keys
    then some no_profile
    else none

unfoldable pub parse_chat_message : Value → Option ChatMessage
parse_chat_message (object fs) = do
  p ← parse_profile fs
  id ← identifier (get "id" fs)
  seq ← whole_from 1 (get "seq" fs)
  actor ← matching is_name (get "actor" fs)
  role ← one_of role_text roles (get "role" fs)
  words ← matching (is_counted 1 max_chat_message_characters) (get "text" fs)
  at ← whole (get "createdAt" fs)
  some (record {
    id = id;
    seq = seq;
    actor = actor;
    role = role;
    profile = p;
    text = words;
    created_at = at;
  })
parse_chat_message _ = none

abbrev pub parse_chat_value : Option Value → Option ChatMessage
parse_chat_value none = none
parse_chat_value (some v) = parse_chat_message v

unfoldable pub parse_chat_message_frame : Fields → Option Value
parse_chat_message_frame fs = do
  guard (has_exact_keys fs ("type" ∷ "message" ∷ []))
  m ← parse_chat_value (get "message" fs)
  some (object (chat_message_fields m))

unfoldable pub parse_chat_history : Fields → Option Value
parse_chat_history fs = do
  guard (has_exact_keys fs ("type" ∷ "messages" ∷ []))
  vs ← items_to max_chat_messages (get "messages" fs)
  ms ← each parse_chat_message vs
  some (object (history_fields ms))

abbrev pub activity_keys : List String
activity_keys =
    "type" ∷ "level" ∷ "eventCount" ∷ "eventLimit" ∷ "payloadBytes" ∷ "payloadLimitBytes"
    ∷ "acceptingNewStrokes" ∷ []

unfoldable pub parse_activity : Fields → Option Value
parse_activity fs = do
  guard (has_exact_keys fs activity_keys)
  level ← number_of_list (80 ∷ 90 ∷ 98 ∷ 100 ∷ []) (get "level" fs)
  events ← whole (get "eventCount" fs)
  guard (is_int room_activity_event_limit (get "eventLimit" fs))
  bytes ← whole (get "payloadBytes" fs)
  guard (is_int room_activity_payload_limit_bytes (get "payloadLimitBytes" fs))
  guard (is_bool (not (level == 100)) (get "acceptingNewStrokes" fs))
  some (object (activity_fields level events bytes))

unfoldable pub parse_time : Fields → Option Value
parse_time fs = do
  guard (has_exact_keys fs ("type" ∷ "warningMinutes" ∷ "endsAt" ∷ "remainingMs" ∷ []))
  minutes ← number_of_list (15 ∷ 5 ∷ 1 ∷ []) (get "warningMinutes" fs)
  ends ← whole (get "endsAt" fs)
  remaining ← whole (get "remainingMs" fs)
  guard (leb remaining (minutes * 60 * 1_000))
  some (object (time_fields minutes ends remaining))

unfoldable pub parse_closed : Fields → Option Value
parse_closed fs = do
  guard (has_exact_keys fs ("type" ∷ "closeRequestId" ∷ "reason" ∷ "closedAt" ∷ []))
  id ← identifier (get "closeRequestId" fs)
  reason ← one_of reason_text close_reasons (get "reason" fs)
  at ← whole (get "closedAt" fs)
  some (object (closed_fields id reason at))

unfoldable pub parse_removed : Fields → Option Value
parse_removed fs = do
  guard (has_exact_keys fs ("type" ∷ "reason" ∷ "actionId" ∷ []))
  reason ← one_of removal_text removal_reasons (get "reason" fs)
  id ← identifier (get "actionId" fs)
  some (object (removed_fields reason id))
