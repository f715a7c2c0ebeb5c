-- ===== src/Room/Moderation/Request.antt =====
-- packages/protocol/src/moderation.ts: `validateRoomModerationRequest`, and the methods of
-- apps/realtime/src/drawing-room.ts that take such a request: `moderateMember` and `suspendRoom`.
use echa.Prelude.{
  ℕ, String, Bool, ◌&&◌, Option, none, some, List, [], ◌∷◌, same, if◌then◌else◌, is_none, ◌>>=◌,
  ◌>>◌, guard,
}
use echa.Protocol.Messages.{RoomStrokeEvent, AcceptedStrokeEvent}
use echa.Protocol.Value.{Value, Fields, object, get, text_of, is_int}
use echa.Protocol.Value.Text.{is_sized, is_trimmed}
use echa.Protocol.Server.Read.{matching, identifier, number_of_list, whole_from}
use echa.Room.Store.{RoomStore}
use echa.Room.Lifecycle.{Transition, suspend_room}
use echa.Room.Moderation.{MemberAction, kick, room_ban, MemberRoom, moderate_member}

-- The actions, with the member that they are about and the hours of a ban from the service.
pub data ModerationAction : Type 0 where
  suspends closes : ModerationAction
  removes : MemberAction → (target_actor_id : String) → ModerationAction
  bans : (target_actor_id : String) (ban_duration_hours : ℕ) → ModerationAction

pub record RoomModerationRequest : Type 0 where
  pub action_id : String
  pub room_id : String
  pub actor_admin_id : String
  pub action : ModerationAction
  pub reason : String
  pub requested_at : ℕ

abbrev pub of_room : ModerationAction → Fields → Option ModerationAction
of_room action fs = do
  guard (is_none (get "targetActorId" fs))
  guard (is_none (get "banDurationHours" fs))
  some action

abbrev pub of_member : MemberAction → Fields → Option ModerationAction
of_member action fs = do
  target ← identifier (get "targetActorId" fs)
  guard (is_none (get "banDurationHours" fs))
  some (removes action target)

abbrev pub of_service : Fields → Option ModerationAction
of_service fs = do
  target ← identifier (get "targetActorId" fs)
  hours ← number_of_list (24 ∷ 168 ∷ 720 ∷ []) (get "banDurationHours" fs)
  some (bans target hours)

abbrev pub action_named : String → Fields → Option ModerationAction
action_named name fs =
    if same name "suspend_room"
    then of_room suspends fs
    else if same name "close_room"
    then of_room closes fs
    else if same name "kick"
    then of_member kick fs
    else if same name "room_ban"
    then of_member room_ban fs
    else if same name "service_ban"
    then of_service fs
    else none

abbrev pub is_reason : String → Bool
is_reason s = is_trimmed s && is_sized 1 500 s

-- What the validator lets pass, as it is typed then.
unfoldable pub validate_room_moderation_request : Value → Option RoomModerationRequest
validate_room_moderation_request (object fs) = do
  guard (is_int 1 (get "v" fs))
  id ← identifier (get "actionId" fs)
  room ← identifier (get "roomId" fs)
  admin ← identifier (get "actorAdminId" fs)
  name ← text_of (get "action" fs)
  reason ← matching is_reason (get "reason" fs)
  at ← whole_from 1 (get "requestedAt" fs)
  action ← action_named name fs
  some (record {
    action_id = id;
    room_id = room;
    actor_admin_id = admin;
    action = action;
    reason = reason;
    requested_at = at;
  })
validate_room_moderation_request _ = none

module _ (byte_length : RoomStrokeEvent → ℕ) where
  abbrev pub moderate_by :
      ModerationAction → ℕ → MemberRoom → Option (MemberRoom × List AcceptedStrokeEvent × ℕ)
  moderate_by (removes action target) now s = moderate_member byte_length action target now s
  moderate_by _ now s = none

  unfoldable pub moderate_on_request :
      Value → ℕ → MemberRoom → Option (MemberRoom × List AcceptedStrokeEvent × ℕ)
  moderate_on_request v now s = do
    q ← validate_room_moderation_request v
    moderate_by q.action now s

  abbrev pub suspend_by : ModerationAction → ℕ → RoomStore → Option Transition
  suspend_by suspends now s = suspend_room byte_length now s
  suspend_by _ now s = none

  unfoldable pub suspend_on_request : Value → ℕ → RoomStore → Option Transition
  suspend_on_request v now s = do q ← validate_room_moderation_request v; suspend_by q.action now s
