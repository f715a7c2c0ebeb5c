-- ===== src/Room/Tickets.antt =====
-- apps/realtime/src/drawing-room.ts: `connectionCapacityError`, `registerRoomTicket`,
-- `consumeRoomTicket`, and the sockets that `fetch` closes and accepts.
-- Sockets are held by what is attached to them, which is also what they are tagged with; a socket that
-- the room closes is gone at once.
pub mod Waiting
pub mod Capacity
pub mod Once
pub mod Request
pub mod Minute
mod Tests
use echa.Prelude.{
  ℕ, ◌+◌, ◌-◌, String, Bool, true, false, not, ◌&&◌, ◌||◌, Option, none, some, List, [], ◌∷◌, ltb,
  leb, if◌then◌else◌, is_some, find?, select, count, delete, update, same, ◌==◌, length,
}
use echa.Protocol.Limits.{max_room_connections}
use echa.Protocol.Messages.{RoomRole, host, participant, viewer, is_host, is_viewer}
use echa.Room.State.{
  LifecycleRow, RoomLifecycleState, room_lifecycle_state, is_over, ConnectionAttachment,
}

-- The limits of `room_metadata`.
pub record RoomMetadata : Type 0 where
  pub room_id : String
  pub participant_limit : ℕ
  pub viewer_limit : ℕ

pub data RoomCapacityErrorCode : Type 0 where
  room_capacity_reached room_participant_capacity_reached room_viewer_capacity_reached :
      RoomCapacityErrorCode

abbrev pub of_actor : String → ConnectionAttachment → Bool
of_actor id s = same s.actor id

-- A host or a participant.
abbrev pub draws : ConnectionAttachment → Bool
draws s = not (is_viewer s.role)

abbrev pub views : ConnectionAttachment → Bool
views s = is_viewer s.role

abbrev pub participant_limit_of : Option RoomMetadata → ℕ
participant_limit_of none = max_room_connections
participant_limit_of (some m) = m.participant_limit

abbrev pub viewer_limit_of : Option RoomMetadata → ℕ
viewer_limit_of none = max_room_connections
viewer_limit_of (some m) = m.viewer_limit

-- The limit for participants, which leaves a place to the host where the room has one for each.
abbrev pub limit_for_participants : (participants viewers : ℕ) → ℕ
limit_for_participants p v = if leb (p + v) max_room_connections then p - 1 else p

-- The tests on the numbers of sockets but those that the new one replaces.
unfoldable pub capacity_test :
    (participants viewers total drawing viewing : ℕ) → RoomRole → Option RoomCapacityErrorCode
capacity_test p v total drawing viewing role =
    if leb max_room_connections total then some room_capacity_reached else elim role [
      | participant ↦
          if leb (limit_for_participants p v) drawing
          then some room_participant_capacity_reached
          else none
      | host ↦ if leb p drawing then some room_participant_capacity_reached else none
      | viewer ↦ if leb v viewing then some room_viewer_capacity_reached else none
    ]

unfoldable pub connection_capacity_error :
    Option RoomMetadata
    → String
    → RoomRole
    → Bool
    → List ConnectionAttachment
    → Option RoomCapacityErrorCode
connection_capacity_error metadata actor role replace sockets =
    let own = if replace then select (of_actor actor) sockets else [] in
    capacity_test (participant_limit_of metadata) (viewer_limit_of metadata)
      (length sockets - length own) (count draws sockets - count draws own)
      (count views sockets - (length own - count draws own)) role

-- The sockets once a connection by ticket is accepted: those of its actor are replaced.
abbrev pub replace_sockets :
    ConnectionAttachment → List ConnectionAttachment → List ConnectionAttachment
replace_sockets s sockets = s ∷ delete (of_actor s.actor) sockets

-- `RoomTicketRow` with its key.
pub record RoomTicket : Type 0 where
  pub token_hash : String
  pub actor_id : String
  pub connection_id : String
  pub role : RoomRole
  pub session_binding_hash : String
  pub issued_at : ℕ
  pub expires_at : ℕ
  pub consumed_at : Option ℕ
  pub can_chat : Bool
  pub display_name : Option String
  pub avatar_url : Option String

-- `RoomTicketRegistrationRequest`, past its validation.
pub record RoomTicketRegistrationRequest : Type 0 where
  pub room_id : String
  pub actor_id : String
  pub connection_id : String
  pub role : RoomRole
  pub can_chat : Option Bool
  pub display_name : Option String
  pub avatar_url : Option String
  pub session_binding_hash : String
  pub issued_at : ℕ
  pub expires_at : ℕ

-- What the two methods read and write.
pub record Door : Type 0 where
  pub metadata : Option RoomMetadata
  pub lifecycle : LifecycleRow
  pub bans : List String
  pub sockets : List ConnectionAttachment
  pub tickets : List RoomTicket

-- The errors that are thrown; the last two are the database's and an inconsistent lifecycle.
pub data Refusal : Type 0 where
  uninitialized inactive banned : Refusal
  at_capacity : RoomCapacityErrorCode → Refusal
  constraint inconsistent : Refusal

pub data Registered : Type 0 where
  registered : Door → Registered
  refused : Refusal → Registered

abbrev pub ticket_is : String → RoomTicket → Bool
ticket_is hash t = same t.token_hash hash

abbrev pub ticket_for : String → RoomTicket → Bool
ticket_for connection t = same t.connection_id connection

-- `canChat`, which is what the role grants where it is absent.
abbrev pub chat_right : RoomTicketRegistrationRequest → Bool
chat_right q = elim q.can_chat [ none ↦ not (is_viewer q.role) | some b ↦ b ]

abbrev pub ticket_of : RoomTicketRegistrationRequest → String → RoomTicket
ticket_of q hash = record {
  token_hash = hash;
  actor_id = q.actor_id;
  connection_id = q.connection_id;
  role = q.role;
  session_binding_hash = q.session_binding_hash;
  issued_at = q.issued_at;
  expires_at = q.expires_at;
  consumed_at = none;
  can_chat = chat_right q;
  display_name = q.display_name;
  avatar_url = q.avatar_url;
}

-- `DELETE … WHERE expires_at <= ?` and the insertion under its key and its unique connection id.
abbrev pub insert_ticket : RoomTicketRegistrationRequest → String → Door → Registered
insert_ticket q hash d =
    let left = delete (λ (t : RoomTicket). leb t.expires_at q.issued_at) d.tickets in
    if is_some (find? (ticket_is hash) left) || is_some (find? (ticket_for q.connection_id) left)
    then refused constraint
    else registered (record d { tickets = ticket_of q hash ∷ left })

abbrev pub targets : RoomTicketRegistrationRequest → Option RoomMetadata → Bool
targets q none = false
targets q (some m) = same m.room_id q.room_id

abbrev pub is_banned : String → List String → Bool
is_banned actor bans = is_some (find? (λ b. same b actor) bans)

unfoldable pub register_room_ticket : RoomTicketRegistrationRequest → String → Door → Registered
register_room_ticket q hash d =
    if not (targets q d.metadata)
    then refused uninitialized
    else elim (room_lifecycle_state d.lifecycle) [
      | none ↦ refused inconsistent
      | some state ↦
          if is_over state
          then refused inactive
          else if is_banned q.actor_id d.bans
          then refused banned
          else elim (connection_capacity_error d.metadata q.actor_id q.role true d.sockets) [
            | some code ↦ refused (at_capacity code)
            | none ↦ insert_ticket q hash d
          ]
    ]

-- `consumeRoomTicket`: the ticket as it was read, unless it is used or has expired.
abbrev pub usable : ℕ → RoomTicket → Bool
usable now t = not (is_some t.consumed_at) && ltb now t.expires_at

unfoldable pub consume_room_ticket :
    String → ℕ → List RoomTicket → List RoomTicket × Option RoomTicket
consume_room_ticket hash now tickets = elim (find? (ticket_is hash) tickets) [
  | none ↦ (tickets, none)
  | some t ↦
      if usable now t
      then (
        update (λ x. ticket_is hash x && not (is_some x.consumed_at))
            (λ x. record x { consumed_at = some now }) tickets,
        some t,
      )
      else (tickets, none)
]
