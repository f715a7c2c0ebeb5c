-- ===== src/Protocol/Server/Records.antt =====
-- packages/protocol/src/types.ts: the server's messages as records.
use echa.Prelude.{ℕ, String, Option, none, some, List, not, true, false, ◌==◌, map}
use echa.Protocol.Limits.{
  protocol_version, canvas_width, canvas_height, room_activity_event_limit,
  room_activity_payload_limit_bytes,
}
use echa.Protocol.Messages.{RoomStrokeEvent, RejectCode, AcceptedStrokeEvent}
use echa.Protocol.Value.{
  plus, Value, bool, num, text, array, object, Fields, no_fields, field, int, of_list,
}
use echa.Protocol.Wire.{room_event_fields, to_binary_wire_event}
use echa.Room.State.{RoomCloseReason}
use echa.Protocol.Server.{
  PresenceMember, RemoteCursor, hidden, visible, ChatProfile, no_profile, profile, ChatMessage,
  PublicSnapshotManifest, RemovalReason, RoomUpdate, to_waiting, to_suspended, to_active, to_idle,
  to_closing, ServerMessage, accepted, ready, reject, replay, snapshot, presence, cursor,
  chat_message, chat_history, room_activity, room_time, room_removed, room_updated, room_closed,
  role_text, code_text, reason_text, removal_text, nullable_text, nullable_int,
}

abbrev pub accepted_fields : (seq : ℕ) (actor connection : String) (at : ℕ) (event : Value) → Fields
accepted_fields seq actor connection at event = field "type" (text "accepted") (
    field "roomSeq" (int seq) (
      field "actor" (text actor) (
        field "connectionId" (text connection)
          (field "acceptedAt" (int at) (field "event" event no_fields)))))

abbrev pub ready_fields : ℕ → Fields
ready_fields seq = field "type" (text "ready") (field "roomSeq" (int seq) no_fields)

abbrev pub reject_fields : Option ℕ → RejectCode → String → Fields
reject_fields none code message =
    field "type" (text "reject")
      (field "code" (text (code_text code)) (field "message" (text message) no_fields))
reject_fields (some seq) code message = field "type" (text "reject") (
    field "code" (text (code_text code))
      (field "message" (text message) (field "clientSeq" (int seq) no_fields)))

abbrev pub replay_fields : List Value → Fields
replay_fields events =
    field "type" (text "replay") (field "events" (array (of_list events)) no_fields)

abbrev pub manifest_fields : PublicSnapshotManifest → Fields
manifest_fields m = field "v" (int 1) (
    field "jobId" (text m.job_id) (
      field "roomId" (text m.room_id) (
        field "baseRoomSeq" (int m.base_room_seq) (
          field "protocolVersion" (int protocol_version) (
            field "rendererVersion" (int 1) (
              field "canvasGeneration" (int 2) (
                field "generation" (int m.generation) (
                  field "codec" (text "koge-rgba-deflate-v1") (
                    field "width" (int canvas_width) (
                      field "height" (int canvas_height) (
                        field "objectBytes" (int m.object_bytes) (
                          field "objectHash" (text m.object_hash) (
                            field "rgbaHash" (text m.rgba_hash)
                              (field "createdAt" (int m.created_at) no_fields))))))))))))))

abbrev pub snapshot_fields : PublicSnapshotManifest → String → ℕ → Fields
snapshot_fields m token at = field "type" (text "snapshot") (
    field "manifest" (object (manifest_fields m))
      (field "readToken" (text token) (field "expiresAt" (int at) no_fields)))

abbrev pub member_value : PresenceMember → Value
member_value m =
    object (field "actor" (text m.actor) (field "role" (text (role_text m.role)) no_fields))

abbrev pub presence_fields : List PresenceMember → Fields
presence_fields ms =
    field "type" (text "presence")
      (field "members" (array (of_list (map member_value ms))) no_fields)

abbrev pub cursor_fields : String → RemoteCursor → Fields
cursor_fields actor hidden =
    field "type" (text "cursor")
      (field "actor" (text actor) (field "visible" (bool false) no_fields))
cursor_fields actor (visible x y) = field "type" (text "cursor") (
    field "actor" (text actor)
      (field "visible" (bool true) (field "x" (num (plus x)) (field "y" (num (plus y)) no_fields))))

abbrev pub chat_end : ChatMessage → Fields
chat_end m = field "text" (text m.text) (field "createdAt" (int m.created_at) no_fields)

abbrev pub profile_fields : ChatProfile → Fields → Fields
profile_fields no_profile rest = rest
profile_fields (profile name url) rest =
    field "displayName" (nullable_text name) (field "avatarUrl" (nullable_text url) rest)

abbrev pub chat_fields : ChatMessage → Fields
chat_fields m = field "id" (text m.id) (
    field "seq" (int m.seq) (
      field "actor" (text m.actor)
        (field "role" (text (role_text m.role)) (profile_fields m.profile (chat_end m)))))

abbrev pub chat_value : ChatMessage → Value
chat_value m = object (chat_fields m)

abbrev pub chat_message_fields : ChatMessage → Fields
chat_message_fields m =
    field "type" (text "chat.message") (field "message" (chat_value m) no_fields)

abbrev pub history_fields : List ChatMessage → Fields
history_fields ms =
    field "type" (text "chat.history")
      (field "messages" (array (of_list (map chat_value ms))) no_fields)

abbrev pub activity_fields : (level events bytes : ℕ) → Fields
activity_fields level events bytes = field "type" (text "room.activity") (
    field "level" (int level) (
      field "eventCount" (int events) (
        field "eventLimit" (int room_activity_event_limit) (
          field "payloadBytes" (int bytes) (
            field "payloadLimitBytes" (int room_activity_payload_limit_bytes)
              (field "acceptingNewStrokes" (bool (not (level == 100))) no_fields))))))

abbrev pub time_fields : (minutes ends remaining : ℕ) → Fields
time_fields minutes ends remaining = field "type" (text "room.time") (
    field "warningMinutes" (int minutes)
      (field "endsAt" (int ends) (field "remainingMs" (int remaining) no_fields)))

abbrev pub closed_fields : String → RoomCloseReason → ℕ → Fields
closed_fields id reason at = field "type" (text "room.closed") (
    field "closeRequestId" (text id)
      (field "reason" (text (reason_text reason)) (field "closedAt" (int at) no_fields)))

abbrev pub removed_fields : RemovalReason → String → Fields
removed_fields reason id =
    field "type" (text "room.removed")
      (field "reason" (text (removal_text reason)) (field "actionId" (text id) no_fields))

abbrev pub changed_fields : (status : String) (at : ℕ) → Fields
changed_fields status at =
    field "type" (text "room.updated")
      (field "status" (text status) (field "changedAt" (int at) no_fields))

abbrev pub lively_fields : (status : String) (at : ℕ) (last : Option ℕ) → Fields
lively_fields status at last = field "type" (text "room.updated") (
    field "status" (text status)
      (field "changedAt" (int at) (field "lastActivityAt" (nullable_int last) no_fields)))

abbrev pub closing_fields : String → RoomCloseReason → ℕ → Fields
closing_fields id reason at = field "type" (text "room.updated") (
    field "status" (text "closing") (
      field "closeRequestId" (text id)
        (field "reason" (text (reason_text reason)) (field "startedAt" (int at) no_fields))))

abbrev pub update_fields : RoomUpdate → Fields
update_fields (to_waiting at) = changed_fields "waiting" at
update_fields (to_suspended at) = changed_fields "suspended" at
update_fields (to_active at last) = lively_fields "active" at last
update_fields (to_idle at last) = lively_fields "idle" at last
update_fields (to_closing id reason at) = closing_fields id reason at

-- A message with its stroke events in the form that a function gives.
abbrev pub accepted_with : (RoomStrokeEvent → Value) → AcceptedStrokeEvent → Value
accepted_with f a =
    object (accepted_fields a.room_seq a.actor a.connection_id a.accepted_at (f a.event))

abbrev pub message_fields : (RoomStrokeEvent → Value) → ServerMessage → Fields
message_fields f (accepted a) =
    accepted_fields a.room_seq a.actor a.connection_id a.accepted_at (f a.event)
message_fields f (ready seq) = ready_fields seq
message_fields f (reject seq code message) = reject_fields seq code message
message_fields f (replay events) = replay_fields (map (accepted_with f) events)
message_fields f (snapshot m token at) = snapshot_fields m token at
message_fields f (presence ms) = presence_fields ms
message_fields f (cursor actor c) = cursor_fields actor c
message_fields f (chat_message m) = chat_message_fields m
message_fields f (chat_history ms) = history_fields ms
message_fields f (room_activity level events bytes) = activity_fields level events bytes
message_fields f (room_time minutes ends remaining) = time_fields minutes ends remaining
message_fields f (room_removed reason id) = removed_fields reason id
message_fields f (room_updated u) = update_fields u
message_fields f (room_closed id reason at) = closed_fields id reason at

abbrev pub logical_event : RoomStrokeEvent → Value
logical_event e = object (room_event_fields e)

-- What `encodeServerMessage` gives to the serializer: `acceptedToWire` for the stroke events.
abbrev pub wire_message : ServerMessage → Value
wire_message m = object (message_fields to_binary_wire_event m)

abbrev pub message_value : ServerMessage → Value
message_value m = object (message_fields logical_event m)
