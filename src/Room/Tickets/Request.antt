-- ===== src/Room/Tickets/Request.antt =====
-- packages/protocol/src/room-access.ts: `validateRoomTicketRegistrationRequest`, and the whole of
-- `registerRoomTicket` of apps/realtime/src/drawing-room.ts. The parser of URLs is a parameter. `none` is
-- a `TypeError`.
use echa.Prelude.{
  ℕ, ◌+◌, String, Bool, false, ◌&&◌, Option, none, some, same, ◌==◌, ◌>>=◌, ◌>>◌, guard,
}
use echa.Protocol.Limits.{max_chat_avatar_url_characters}
use echa.Protocol.Server.{role_text}
use echa.Protocol.Server.Parser.{is_display_name}
use echa.Protocol.Value.{Value, bool, object, get, whole, is_int}
use echa.Protocol.Value.Text.{is_hash, is_sized}
use echa.Protocol.Server.Read.{nullable, identifier, hash, one_of, roles, whole_from}
use echa.Room.Tickets.{RoomTicketRegistrationRequest, Door, Registered, register_room_ticket}

abbrev pub room_ticket_ttl_ms : ℕ
room_ticket_ttl_ms = 60_000

-- The properties of a `URL` that are read.
pub record Url : Type 0 where
  pub protocol : String
  pub username : String
  pub password : String
  pub href : String

abbrev pub is_https : String → Option Url → Bool
is_https s none = false
is_https s (some u) =
    same u.protocol "https:" && same u.username "" && same u.password "" && same u.href s

-- A field that may be missing, or null.
abbrev pub optional : (String → Bool) → Option Value → Option (Option String)
optional p none = some none
optional p v = nullable p v

abbrev pub optional_boolean : Option Value → Option (Option Bool)
optional_boolean none = some none
optional_boolean (some (bool b)) = some (some b)
optional_boolean _ = none

module _ (parse_url : String → Option Url) where
  abbrev pub is_safe_avatar_url : String → Bool
  is_safe_avatar_url s = is_sized 0 max_chat_avatar_url_characters s && is_https s (parse_url s)

  -- What the validator lets pass, as it is typed then.
  unfoldable pub validate_room_ticket_registration_request :
      Value → Option RoomTicketRegistrationRequest
  validate_room_ticket_registration_request (object fs) = do
    guard (is_int 1 (get "v" fs))
    room ← identifier (get "roomId" fs)
    actor ← identifier (get "actorId" fs)
    connection ← identifier (get "connectionId" fs)
    role ← one_of role_text roles (get "role" fs)
    chat ← optional_boolean (get "canChat" fs)
    name ← optional is_display_name (get "displayName" fs)
    avatar ← optional is_safe_avatar_url (get "avatarUrl" fs)
    session ← hash (get "sessionBindingHash" fs)
    issued ← whole_from 1 (get "issuedAt" fs)
    expires ← whole (get "expiresAt" fs)
    guard (expires == issued + room_ticket_ttl_ms)
    some (record {
      room_id = room;
      actor_id = actor;
      connection_id = connection;
      role = role;
      can_chat = chat;
      display_name = name;
      avatar_url = avatar;
      session_binding_hash = session;
      issued_at = issued;
      expires_at = expires;
    })
  validate_room_ticket_registration_request _ = none

  unfoldable pub register_validated : Value → (token_hash : String) → Door → Option Registered
  register_validated v token_hash d = do
    q ← validate_room_ticket_registration_request v
    guard (is_hash 64 token_hash)
    some (register_room_ticket q token_hash d)
