-- ===== src/Room/Moderation.antt =====
-- apps/realtime/src/drawing-room.ts: `moderateMember`, past the validation of its request, and
-- `disconnectServiceBannedActor`. A socket that is told of its removal is closed at once. `none` is an exception.
pub mod Removed
pub mod Request
pub mod Requested
mod Tests
use echa.Prelude.{
  ℕ, String, Bool, true, not, ◌&&◌, ◌||◌, Option, none, some, List, ◌∷◌, same, if◌then◌else◌,
  is_some, find?, delete, count, ◌>>=◌, ◌>>◌, guard,
}
use echa.Protocol.Messages.{RoomStrokeEvent, AcceptedStrokeEvent, is_host}
use echa.Protocol.Value.Text.{is_identifier}
use echa.Room.Log.{StrokeLog, finalize_active_strokes}
use echa.Room.State.{Connection, room_lifecycle_state, is_over}
use echa.Room.Tickets.{RoomTicket, Door, of_actor, is_banned}

pub data MemberAction : Type 0 where
  kick room_ban : MemberAction

pub record MemberRoom : Type 0 where
  pub door : Door
  pub connections : List Connection
  pub log : StrokeLog

-- `SERVER_MEMBER_MODERATION_CONNECTION_ID`.
abbrev pub member_moderation_connection_id : String
member_moderation_connection_id = "server_member_moderation"

abbrev pub ticket_of_actor : String → RoomTicket → Bool
ticket_of_actor actor t = same t.actor_id actor

-- `hostConnection || hostTicket`.
unfoldable pub hosts : String → MemberRoom → Bool
hosts actor s =
    is_some (find? (λ (c : Connection). same c.actor actor && is_host c.role) s.connections)
    || is_some (find? (λ (t : RoomTicket). same t.actor_id actor && is_host t.role) s.door.tickets)

-- The row of `room_bans` is inserted or updated; its key is the actor.
abbrev pub add_ban : MemberAction → String → List String → List String
add_ban kick actor bans = bans
add_ban room_ban actor bans = if is_banned actor bans then bans else actor ∷ bans

abbrev pub remove_member : MemberAction → String → Door → Door
remove_member action actor d = record d {
  bans = add_ban action actor d.bans;
  tickets = delete (ticket_of_actor actor) d.tickets;
  sockets = delete (of_actor actor) d.sockets;
}

-- The room, the events that are broadcast and `disconnectedConnectionCount`.
unfoldable pub moderate_member :
    (RoomStrokeEvent → ℕ)
    → MemberAction
    → (actor : String) (now : ℕ) → MemberRoom
    → Option (MemberRoom × List AcceptedStrokeEvent × ℕ)
moderate_member byte_length action actor now s = do
  state ← room_lifecycle_state s.door.lifecycle
  guard (not (is_over state))
  guard (not (hosts actor s))
  (log, out) ←
      finalize_active_strokes byte_length member_moderation_connection_id now (some actor) s.log
  some (
    record s { door = remove_member action actor s.door; log = log },
    out,
    count (of_actor actor) s.door.sockets,
  )

-- The actor leaves as at a kick, whatever the role and the status of the room.
unfoldable pub disconnect_service_banned_actor :
    (RoomStrokeEvent → ℕ)
    → (actor action_id : String) (now : ℕ) → MemberRoom
    → Option (MemberRoom × List AcceptedStrokeEvent × ℕ)
disconnect_service_banned_actor byte_length actor action_id now s = do
  guard (is_identifier 8 128 actor && is_identifier 8 128 action_id)
  (log, out) ←
      finalize_active_strokes byte_length member_moderation_connection_id now (some actor) s.log
  some (
    record s { door = remove_member kick actor s.door; log = log },
    out,
    count (of_actor actor) s.door.sockets,
  )
