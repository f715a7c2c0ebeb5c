-- ===== src/Room/Moderation/Requested.antt =====
-- apps/realtime/src/drawing-room.ts: members who are removed at the request of an administrator.
use echa.Prelude.{ℕ, ◌≡◌, ap, ◌∙◌, String, false, some, List, count, bind_of}
use echa.Protocol.Messages.{RoomStrokeEvent, AcceptedStrokeEvent}
use echa.Protocol.Value.{Value}
use echa.Room.Log.Finalize.{HasUniqueIds}
use echa.Room.State.{RoomLifecycleState, room_lifecycle_state, is_over}
use echa.Room.Tickets.{of_actor}
use echa.Room.Moderation.{MemberAction, MemberRoom, hosts}
use echa.Room.Moderation.Removed.{Removed, moderate_member_lem}
use echa.Room.Moderation.Request.{
  removes, RoomModerationRequest, validate_room_moderation_request, moderate_by,
  moderate_on_request,
}

-- For a valid request to kick or ban a member of the room, in a room that is not over and whose
-- strokes have unique keys, moderateMember removes a member who is no host: the active strokes
-- wanted for that member, and no others, are ended with an event each, and no ticket and no
-- socket is left; after a ban, no ticket can be registered for the member.
pub moderate_on_request_lem :
    (byte_length : RoomStrokeEvent → ℕ) (v : Value) (q : RoomModerationRequest)
    (action : MemberAction) (actor : String) (now : ℕ) (s : MemberRoom) (state : RoomLifecycleState)
    → validate_room_moderation_request v ≡ some q
    → q.action ≡ removes action actor
    → room_lifecycle_state s.door.lifecycle ≡ some state
    → is_over state ≡ false
    → hosts actor s ≡ false
    → HasUniqueIds s.log.strokes
    → (s' : MemberRoom) × (out : List AcceptedStrokeEvent) × (moderate_on_request byte_length v now
          s
        ≡ some (s', out, count (of_actor actor) s.door.sockets))
      × Removed action actor now s s' out
unfolding moderate_on_request
moderate_on_request_lem byte_length v q action actor now s state valid wanted live open_room no_host
      unique =
    let (s', out, run, removed) =
      moderate_member_lem byte_length action actor now s state live open_room no_host unique in
    (s', out, bind_of _ valid ∙ ap (λ a. moderate_by byte_length a now s) wanted ∙ run, removed)
