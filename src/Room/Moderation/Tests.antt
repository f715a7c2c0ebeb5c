-- ===== src/Room/Moderation/Tests.antt =====
-- apps/realtime/src/drawing-room.ts: a member who is banned.
use echa.Prelude.{ℕ, ◌≡◌, refl, false, none, some, List, [], ◌∷◌, count, arith}
use echa.Protocol.Messages.{RoomStrokeEvent, AcceptedStrokeEvent, participant}
use echa.Room.Log.{Stroke, active}
use echa.Room.Log.Finalize.{HasUniqueIds}
use echa.Room.State.{LifecycleStatus, active_since, room_lifecycle_state}
use echa.Room.Tickets.{of_actor}
use echa.Room.Moderation.{room_ban, MemberRoom, hosts}
use echa.Room.Moderation.Removed.{Removed}
use echa.Room.Moderation.Request.{
  removes, RoomModerationRequest, validate_room_moderation_request, moderate_on_request,
}
use echa.Room.Moderation.Requested.{moderate_on_request_lem}
use echa.Protocol.Value.{Value, object, field, no_fields, text, int}
use echa.Protocol.Value.Text.{is_identifier, is_sized, is_trimmed}

abbrev size : RoomStrokeEvent → ℕ
size e = 60

abbrev drawn : Stroke
drawn = record {
  stroke_id = "stroke-one";
  actor = "bob-0001";
  status = active;
  last_dt = 0;
  last_append_at = 1_010;
  point_count = 1;
}

-- Bob draws, is connected and has a ticket for another connection.
abbrev room : MemberRoom
room = record {
  door = record {
    metadata = some (record { room_id = "room-one"; participant_limit = 2; viewer_limit = 1 });
    lifecycle = record {
      status = LifecycleStatus.active;
      status_changed_at = 900;
      last_activity_at = some 1_010;
      close_request_id = none;
      close_reason = none;
      closing_started_at = none;
      finalized_stroke_count = 0;
      superseded_snapshot_job_count = 0;
    };
    bans = [];
    sockets = [];
    tickets =
        record {
          token_hash = "hash";
          actor_id = "bob-0001";
          connection_id = "connection-two";
          role = participant;
          session_binding_hash = "session";
          issued_at = 1_000;
          expires_at = 61_000;
          consumed_at = none;
          can_chat = false;
          display_name = none;
          avatar_url = none;
        }
        ∷ [];
  };
  connections = [];
  log = record { strokes = drawn ∷ []; events = []; accepted = 0; payload_bytes = 0; last_seq = 0 };
}

one_drawn : HasUniqueIds (drawn ∷ [])
one_drawn id = ground arith

is_live : room_lifecycle_state room.door.lifecycle ≡ some (active_since 900 (some 1_010))
unfolding room_lifecycle_state
is_live = refl

bob_is_no_host : hosts "bob-0001" room ≡ false
unfolding hosts
bob_is_no_host = refl

abbrev ban_value : Value
ban_value = object (
    field "v" (int 1) (
      field "actionId" (text "action-0001") (
        field "roomId" (text "room-0001") (
          field "actorAdminId" (text "admin-0001") (
            field "action" (text "room_ban") (
              field "reason" (text "spam") (
                field "requestedAt" (int 1_900)
                  (field "targetActorId" (text "bob-0001") no_fields))))))))

abbrev ban : RoomModerationRequest
ban = record {
  action_id = "action-0001";
  room_id = "room-0001";
  actor_admin_id = "admin-0001";
  action = removes room_ban "bob-0001";
  reason = "spam";
  requested_at = 1_900;
}

ban_is_read : validate_room_moderation_request ban_value ≡ some ban
unfolding validate_room_moderation_request is_identifier is_sized is_trimmed
ban_is_read = refl

moderate_on_request_lem_example :
    (s' : MemberRoom) × (out : List AcceptedStrokeEvent) × (moderate_on_request size ban_value 2_000
        room
      ≡ some (s', out, count (of_actor "bob-0001") room.door.sockets))
    × Removed room_ban "bob-0001" 2_000 room s' out
moderate_on_request_lem_example =
    moderate_on_request_lem size ban_value ban room_ban "bob-0001" 2_000 room
      (active_since 900 (some 1_010)) ban_is_read refl is_live refl bob_is_no_host one_drawn
