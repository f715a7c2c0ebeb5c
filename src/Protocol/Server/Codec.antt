-- ===== src/Protocol/Server/Codec.antt =====
-- packages/protocol/src/server-codec.ts: `parseServerMessage`, `encodeServerMessage` and
-- `decodeServerMessage`.
use echa.Prelude.{
  ℕ, String, Option, none, some, List, [], ◌∷◌, same, if◌then◌else◌, ◌>>=◌, ◌>>◌, guard,
}
use echa.Protocol.Value.{
  Value, null, object, Fields, get, whole, text_of, is_text, has_exact_keys, Serializer,
}
use echa.Protocol.Value.Text.{is_sized}
use echa.Protocol.Wire.{Outcome, returns, throws, not_valid, not_decoded, within_frame}
use echa.Protocol.Server.{
  to_waiting, to_suspended, to_active, to_idle, to_closing, RoomUpdate, ServerMessage, code_text,
  reason_text,
}
use echa.Protocol.Server.Records.{
  ready_fields, reject_fields, replay_fields, update_fields, wire_message,
}
use echa.Protocol.Server.Read.{
  matching, one_of, or_else, each, items_to, reject_codes, close_reasons, identifier, whole_from,
}
use echa.Protocol.Server.Parser.{
  parse_accepted, parse_snapshot, parse_presence, parse_remote_cursor, parse_chat_message_frame,
  parse_chat_history, parse_activity, parse_time, parse_closed, parse_removed,
}

-- `waiting` and `suspended`.
abbrev pub parse_changed : (status : String) → (ℕ → RoomUpdate) → Fields → Option RoomUpdate
parse_changed status make fs = do
  guard (is_text status (get "status" fs))
  guard (has_exact_keys fs ("type" ∷ "status" ∷ "changedAt" ∷ []))
  at ← whole (get "changedAt" fs)
  some (make at)

abbrev pub whole_or_null : Option Value → Option (Option ℕ)
whole_or_null (some null) = some none
whole_or_null v = do n ← whole v; some (some n)

-- `active` and `idle`.
abbrev pub parse_lively :
    (status : String) → (ℕ → Option ℕ → RoomUpdate) → Fields → Option RoomUpdate
parse_lively status make fs = do
  guard (is_text status (get "status" fs))
  guard (has_exact_keys fs ("type" ∷ "status" ∷ "changedAt" ∷ "lastActivityAt" ∷ []))
  at ← whole (get "changedAt" fs)
  last ← whole_or_null (get "lastActivityAt" fs)
  some (make at last)

abbrev pub parse_closing : Fields → Option RoomUpdate
parse_closing fs = do
  guard (has_exact_keys fs ("type" ∷ "status" ∷ "closeRequestId" ∷ "reason" ∷ "startedAt" ∷ []))
  guard (is_text "closing" (get "status" fs))
  id ← identifier (get "closeRequestId" fs)
  reason ← one_of reason_text close_reasons (get "reason" fs)
  at ← whole (get "startedAt" fs)
  some (to_closing id reason at)

unfoldable pub parse_updated : Fields → Option Value
parse_updated fs = do
  u ← or_else (parse_changed "waiting" to_waiting fs) (
      or_else (parse_changed "suspended" to_suspended fs) (
        or_else (parse_lively "active" to_active fs)
          (or_else (parse_lively "idle" to_idle fs) (parse_closing fs))))
  some (object (update_fields u))

unfoldable pub parse_ready : Fields → Option Value
parse_ready fs = do
  guard (has_exact_keys fs ("type" ∷ "roomSeq" ∷ []))
  seq ← whole (get "roomSeq" fs)
  some (object (ready_fields seq))

-- `value.clientSeq`, if it is there.
abbrev pub parse_client_seq : Option Value → Option (Option ℕ)
parse_client_seq none = some none
parse_client_seq v = do n ← whole_from 1 v; some (some n)

abbrev pub reject_keys : Option Value → List String
reject_keys none = "type" ∷ "code" ∷ "message" ∷ []
reject_keys (some v) = "type" ∷ "clientSeq" ∷ "code" ∷ "message" ∷ []

unfoldable pub parse_reject : Fields → Option Value
parse_reject fs = do
  guard (has_exact_keys fs (reject_keys (get "clientSeq" fs)))
  code ← one_of code_text reject_codes (get "code" fs)
  message ← matching (is_sized 1 256) (get "message" fs)
  seq ← parse_client_seq (get "clientSeq" fs)
  some (object (reject_fields seq code message))

unfoldable pub parse_replay : Fields → Option Value
parse_replay fs = do
  guard (has_exact_keys fs ("type" ∷ "events" ∷ []))
  vs ← items_to 500 (get "events" fs)
  events ← each parse_accepted vs
  some (object (replay_fields events))

-- By the text of `type`.
abbrev pub parse_typed : String → Fields → Option Value
parse_typed type fs =
    if same type "accepted"
    then parse_accepted (object fs)
    else if same type "snapshot"
    then parse_snapshot fs
    else if same type "presence"
    then parse_presence fs
    else if same type "cursor"
    then parse_remote_cursor fs
    else if same type "chat.message"
    then parse_chat_message_frame fs
    else if same type "chat.history"
    then parse_chat_history fs
    else if same type "room.activity"
    then parse_activity fs
    else if same type "room.time"
    then parse_time fs
    else if same type "room.closed"
    then parse_closed fs
    else if same type "room.removed"
    then parse_removed fs
    else if same type "room.updated"
    then parse_updated fs
    else if same type "ready"
    then parse_ready fs
    else if same type "reject"
    then parse_reject fs
    else if same type "replay"
    then parse_replay fs
    else none

unfoldable pub parse_server_message : Value → Option Value
parse_server_message (object fs) = do type ← text_of (get "type" fs); parse_typed type fs
parse_server_message _ = none

abbrev pub outcome_of : Option Value → Outcome Value
outcome_of none = throws not_valid
outcome_of (some v) = returns v

module _ (packer : Serializer) where
  unfoldable pub encode_server_message : ServerMessage → Outcome packer.Frame
  encode_server_message m =
      let frame = packer.encode (wire_message m) in
      within_frame (packer.byte_length frame) (returns frame)

  abbrev pub parse_frame : Option Value → Outcome Value
  parse_frame none = throws not_decoded
  parse_frame (some v) = outcome_of (parse_server_message v)

  unfoldable pub decode_server_message : packer.Frame → Outcome Value
  decode_server_message frame =
      within_frame (packer.byte_length frame) (parse_frame (packer.decode frame))
