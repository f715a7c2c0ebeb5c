-- ===== src/Room/Tickets/Tests.antt =====
-- apps/realtime/src/drawing-room.ts: a ticket for a small room.
use echa.Prelude.{
  ◌+◌, ◌≡◌, refl, String, true, Option, none, some, [], ◌∷◌, arith, ltb, if◌then◌else◌, ◌<◌, count,
}
use echa.Room.Tickets.Capacity.{overrun_bounded, empty, admits, accepts}
use echa.Protocol.Messages.{participant, viewer}
use echa.Protocol.Value.{Value, null, object, field, no_fields, text, int, bool}
use echa.Protocol.Value.Text.{is_identifier, is_hash, is_sized, is_counted, is_trimmed}
use echa.Room.State.{LifecycleStatus, room_lifecycle_state, ConnectionAttachment}
use echa.Room.Tickets.{
  RoomTicketRegistrationRequest, Door, registered, capacity_test, connection_capacity_error,
  register_room_ticket, ticket_of, consume_room_ticket, RoomMetadata, draws, views,
}
use echa.Room.Tickets.Once.{Issued}
use echa.Room.Tickets.Request.{Url, validate_room_ticket_registration_request, register_validated}
use echa.Room.Tickets.Minute.{IsTicketRequest, register_validated-consume}

-- A parser of URLs that takes all texts for the path of a page.
abbrev url_of : String → Option Url
url_of s = some (record { protocol = "https:"; username = ""; password = ""; href = s })

abbrev hash : String
hash = "0123456789abcdef0123456789abcdef0123456789abcdef0123456789abcdef"

abbrev request_value : Value
request_value = object (
    field "v" (int 1) (
      field "roomId" (text "room-0001") (
        field "actorId" (text "user-0001") (
          field "connectionId" (text "connection-0001") (
            field "role" (text "participant") (
              field "canChat" (bool true) (
                field "displayName" null (
                  field "avatarUrl" (text "https://example.org/a.png") (
                    field "sessionBindingHash" (text hash) (
                      field "issuedAt" (int 5_000)
                        (field "expiresAt" (int 65_000) no_fields)))))))))))

abbrev request : RoomTicketRegistrationRequest
request = record {
  room_id = "room-0001";
  actor_id = "user-0001";
  connection_id = "connection-0001";
  role = participant;
  can_chat = some true;
  display_name = none;
  avatar_url = some "https://example.org/a.png";
  session_binding_hash = hash;
  issued_at = 5_000;
  expires_at = 65_000;
}

abbrev door : Door
door = record {
  metadata = some (record { room_id = "room-0001"; participant_limit = 2; viewer_limit = 1 });
  lifecycle = record {
    status = LifecycleStatus.active;
    status_changed_at = 900;
    last_activity_at = some 1_010;
    close_request_id = none;
    close_reason = none;
    closing_started_at = none;
    finalized_stroke_count = 0;
    superseded_snapshot_job_count = 0;
  };
  bans = [];
  sockets = [];
  tickets = [];
}

abbrev door_after : Door
door_after = record door { tickets = ticket_of request hash ∷ [] }

is_registered : register_validated url_of request_value hash door ≡ some (registered door_after)
unfolding register_validated validate_room_ticket_registration_request is_identifier is_hash
    is_sized is_counted is_trimmed capacity_test connection_capacity_error register_room_ticket
    room_lifecycle_state
is_registered = refl

register_validated-consume_example :
    (q : RoomTicketRegistrationRequest) × (validate_room_ticket_registration_request url_of
        request_value
      ≡ some q)
    × IsTicketRequest url_of q
    × Issued q hash door door_after
    × ((consume_room_ticket hash 6_000 door_after.tickets).1
        ≡ (if ltb 6_000 (q.issued_at + 60_000) then some (ticket_of q hash) else none))
    × ((consume_room_ticket hash 7_000 (consume_room_ticket hash 6_000 door_after.tickets).0).1
        ≡ none)
register_validated-consume_example =
    register_validated-consume url_of request_value hash door door_after 6_000 7_000 is_registered
      (omega arith)

abbrev seats : RoomMetadata
seats = record { room_id = "room-0001"; participant_limit = 2; viewer_limit = 1 }

abbrev watcher : String → ConnectionAttachment
watcher id = record { actor = id; connection_id = id; role = viewer; room_id = "room-0001" }

finds_place : (id : String) → connection_capacity_error (some seats) id viewer true [] ≡ none
unfolding connection_capacity_error capacity_test
finds_place id = refl

-- Two viewers are tested before the first of them is accepted, and both take the only place.
overrun_bounded_example :
    (2 < 20 + 2)
    × (count draws (watcher "ann" ∷ watcher "bob" ∷ []) < 2 + 2)
    × (count views (watcher "ann" ∷ watcher "bob" ∷ []) < 1 + 2)
overrun_bounded_example = overrun_bounded seats 2 (omega arith) (
    accepts (watcher "ann") [] [] (
      accepts (watcher "bob") (watcher "ann" ∷ []) [] (
        admits (watcher "ann") (admits (watcher "bob") empty (finds_place "bob") (omega arith))
          (finds_place "ann") (omega arith))))
