-- ===== src/Room/Provision/Tests.antt =====
-- apps/realtime/src/drawing-room.ts: a room that is made.
use echa.Prelude.{◌≡◌, refl, none, some, true}
use echa.Protocol.Value.{Value, object, field, no_fields, text, int, bool}
use echa.Protocol.Value.Text.{is_identifier, is_hash, is_counted, is_trimmed}
use echa.Room.State.{LifecycleStatus}
use echa.Room.Store.{no_tasks}
use echa.Room.Provision.{
  listed, RoomProvisioningRequest, ProvisionStore, initialized, result_of, waiting_from,
  has_safe_capacity_limits, has_legacy_capacity_limits, validate_room_provisioning_request,
  initialize_room,
}
use echa.Room.Provision.{RoomProvisioningResult}
use echa.Room.Provision.Made.{IsTaken, initialize_room_total}
use echa.Prelude.{◌⊎◌}
use echa.Room.Provision.Once.{Provisioned}

abbrev request : RoomProvisioningRequest
request = record {
  room_id = "room-0001";
  public_slug = "0123456789abcdef0123456789abcdef";
  owner_user_id = "user-0001";
  name = "Sunday sketch";
  visibility = listed;
  participant_limit = 10;
  viewer_limit = 10;
  viewer_chat_enabled = true;
  viewer_stamp_enabled = true;
  created_at = 1_000_000;
  max_ends_at = 8_200_000;
}

abbrev request_value : Value
request_value = object (
    field "v" (int 1) (
      field "roomId" (text "room-0001") (
        field "publicSlug" (text "0123456789abcdef0123456789abcdef") (
          field "ownerUserId" (text "user-0001") (
            field "name" (text "Sunday sketch") (
              field "visibility" (text "public") (
                field "participantLimit" (int 10) (
                  field "viewerLimit" (int 10) (
                    field "viewerChatEnabled" (bool true) (
                      field "viewerStampEnabled" (bool true) (
                        field "createdAt" (int 1_000_000)
                          (field "maxEndsAt" (int 8_200_000) no_fields))))))))))))

abbrev new_room : ProvisionStore
new_room = record {
  metadata = none;
  identity = none;
  lifecycle = record {
    status = LifecycleStatus.active;
    status_changed_at = 0;
    last_activity_at = none;
    close_request_id = none;
    close_reason = none;
    closing_started_at = none;
    finalized_stroke_count = 0;
    superseded_snapshot_job_count = 0;
  };
  tasks = no_tasks;
  warning_stage = 3;
}

abbrev made_room : ProvisionStore
made_room = record {
  metadata = some request;
  identity = some "room-0001";
  lifecycle = waiting_from 1_000_000 new_room.lifecycle;
  tasks = record no_tasks { max_duration = some 8_200_000 };
  warning_stage = 0;
}

made : initialize_room request_value new_room ≡ some (made_room, result_of initialized request)
unfolding initialize_room validate_room_provisioning_request has_safe_capacity_limits
    has_legacy_capacity_limits is_identifier is_hash is_counted is_trimmed
made = refl

read_request : validate_room_provisioning_request request_value ≡ some request
unfolding validate_room_provisioning_request has_safe_capacity_limits has_legacy_capacity_limits
    is_identifier is_hash is_counted is_trimmed
read_request = refl

initialize_room_total_example :
    ((s : ProvisionStore) × (result : RoomProvisioningResult) × (m : RoomProvisioningRequest)
      × (initialize_room request_value new_room ≡ some (s, result))
      × Provisioned new_room s result request m)
    ⊎ ((initialize_room request_value new_room ≡ none) × IsTaken request new_room)
initialize_room_total_example = initialize_room_total request_value request new_room read_request
