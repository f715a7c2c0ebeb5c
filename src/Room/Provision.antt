-- ===== src/Room/Provision.antt =====
-- packages/protocol/src/room-provisioning.ts: `validateRoomProvisioningRequest`; and `initializeRoom`
-- of apps/realtime/src/drawing-room.ts. `none` is an exception, which rolls the transaction back; the
-- alarm that is scheduled after it is not modelled.
pub mod Once
pub mod Made
mod Tests
use echa.Prelude.{
  ℕ, ◌+◌, ◌*◌, String, Bool, true, false, ◌&&◌, ◌||◌, Option, none, some, List, [], ◌∷◌, ltb, leb,
  ◌==◌, same, if◌then◌else◌, ◌>>=◌, ◌>>◌, guard,
}
use echa.Protocol.Value.{Value, bool, text, object, get, whole, is_text, is_int}
use echa.Protocol.Value.Text.{is_identifier, is_hash, is_counted, is_trimmed}
use echa.Protocol.Server.Read.{matching, identifier, one_of, whole_from}
use echa.Room.State.{LifecycleStatus, LifecycleRow}
use echa.Room.Store.{ScheduledTasks, is_active}

abbrev pub room_max_duration_ms : ℕ
room_max_duration_ms = 2 * 60 * 60 * 1_000

abbrev pub room_name_max_length : ℕ
room_name_max_length = 60

abbrev pub room_role_limit_max : ℕ
room_role_limit_max = 20

abbrev pub legacy_room_participant_limit : ℕ
legacy_room_participant_limit = 20

abbrev pub legacy_room_viewer_limit : ℕ
legacy_room_viewer_limit = 100

pub data RoomVisibility : Type 0 where
  listed unlisted : RoomVisibility

abbrev pub visibility_text : RoomVisibility → String
visibility_text listed = "public"
visibility_text unlisted = "unlisted"

abbrev pub same_visibility : RoomVisibility → RoomVisibility → Bool
same_visibility listed listed = true
same_visibility unlisted unlisted = true
same_visibility _ _ = false

-- Also the row of `room_metadata`, which has the same fields.
pub record RoomProvisioningRequest : Type 0 where
  pub room_id : String
  pub public_slug : String
  pub owner_user_id : String
  pub name : String
  pub visibility : RoomVisibility
  pub participant_limit : ℕ
  pub viewer_limit : ℕ
  pub viewer_chat_enabled : Bool
  pub viewer_stamp_enabled : Bool
  pub created_at : ℕ
  pub max_ends_at : ℕ

-- `hasSafeCapacityLimits` and `hasLegacyCapacityLimits`.
unfoldable pub has_safe_capacity_limits : (participants viewers : ℕ) → Bool
has_safe_capacity_limits p v =
    leb 1 p
    && leb p room_role_limit_max
    && ltb v room_role_limit_max
    && leb (p + v) room_role_limit_max

unfoldable pub has_legacy_capacity_limits : (participants viewers : ℕ) → Bool
has_legacy_capacity_limits p v = p == legacy_room_participant_limit && v == legacy_room_viewer_limit

-- `typeof value === "boolean"`.
abbrev pub boolean : Option Value → Option Bool
boolean (some (bool b)) = some b
boolean _ = none

abbrev pub is_room_name : String → Bool
is_room_name s = is_trimmed s && is_counted 1 room_name_max_length s

-- What the validator lets pass, as it is typed then.
unfoldable pub validate_room_provisioning_request : Value → Option RoomProvisioningRequest
validate_room_provisioning_request (object fs) = do
  guard (is_int 1 (get "v" fs))
  room ← identifier (get "roomId" fs)
  slug ← matching (is_hash 32) (get "publicSlug" fs)
  owner ← identifier (get "ownerUserId" fs)
  name ← matching is_room_name (get "name" fs)
  visibility ← one_of visibility_text (listed ∷ unlisted ∷ []) (get "visibility" fs)
  participants ← whole (get "participantLimit" fs)
  viewers ← whole (get "viewerLimit" fs)
  guard (
      has_safe_capacity_limits participants viewers
      || has_legacy_capacity_limits participants viewers)
  chat ← boolean (get "viewerChatEnabled" fs)
  stamp ← boolean (get "viewerStampEnabled" fs)
  created ← whole_from 1 (get "createdAt" fs)
  ends ← whole (get "maxEndsAt" fs)
  guard (ends == created + room_max_duration_ms)
  some (record {
    room_id = room;
    public_slug = slug;
    owner_user_id = owner;
    name = name;
    visibility = visibility;
    participant_limit = participants;
    viewer_limit = viewers;
    viewer_chat_enabled = chat;
    viewer_stamp_enabled = stamp;
    created_at = created;
    max_ends_at = ends;
  })
validate_room_provisioning_request _ = none

-- The rows that the method reads and writes.
pub record ProvisionStore : Type 0 where
  pub metadata : Option RoomProvisioningRequest
  pub identity : Option String
  pub lifecycle : LifecycleRow
  pub tasks : ScheduledTasks
  pub warning_stage : ℕ

pub data ProvisioningStatus : Type 0 where
  initialized already_initialized : ProvisioningStatus

pub record RoomProvisioningResult : Type 0 where
  pub status : ProvisioningStatus
  pub room_id : String
  pub created_at : ℕ
  pub max_ends_at : ℕ

abbrev pub same_flag : Bool → Bool → Bool
same_flag true b = b
same_flag false true = false
same_flag false false = true

unfoldable pub room_metadata_matches : (stored request : RoomProvisioningRequest) → Bool
room_metadata_matches a b =
    same a.room_id b.room_id
    && same a.public_slug b.public_slug
    && same a.owner_user_id b.owner_user_id
    && same a.name b.name
    && same_visibility a.visibility b.visibility
    && a.participant_limit == b.participant_limit
    && a.viewer_limit == b.viewer_limit
    && same_flag a.viewer_chat_enabled b.viewer_chat_enabled
    && same_flag a.viewer_stamp_enabled b.viewer_stamp_enabled
    && a.created_at == b.created_at
    && a.max_ends_at == b.max_ends_at

abbrev pub result_of : ProvisioningStatus → RoomProvisioningRequest → RoomProvisioningResult
result_of status r = record {
  status = status;
  room_id = r.room_id;
  created_at = r.created_at;
  max_ends_at = r.max_ends_at;
}

-- `ensureRoomIdentity`.
abbrev pub claimed_identity : String → Option String → Option String
claimed_identity room_id none = some room_id
claimed_identity room_id (some id) = if same id room_id then some id else none

-- `… WHERE status = 'active'`.
abbrev pub waiting_from : ℕ → LifecycleRow → LifecycleRow
waiting_from at row =
    if is_active row.status
    then record row {
      status = LifecycleStatus.waiting;
      status_changed_at = at;
      last_activity_at = none;
    }
    else row

abbrev pub initialize_new :
    RoomProvisioningRequest → ProvisionStore → Option (ProvisionStore × RoomProvisioningResult)
initialize_new r s = do
  id ← claimed_identity r.room_id s.identity
  some (
    record {
      metadata = some r;
      identity = some id;
      lifecycle = waiting_from r.created_at s.lifecycle;
      tasks = record s.tasks { max_duration = some r.max_ends_at };
      warning_stage = 0;
    },
    result_of initialized r,
  )

abbrev pub initialize_over :
    Option RoomProvisioningRequest
    → RoomProvisioningRequest
    → ProvisionStore
    → Option (ProvisionStore × RoomProvisioningResult)
initialize_over none r s = initialize_new r s
initialize_over (some stored) r s =
    if room_metadata_matches stored r then some (s, result_of already_initialized stored) else none

unfoldable pub initialize_room :
    Value → ProvisionStore → Option (ProvisionStore × RoomProvisioningResult)
initialize_room v s = do r ← validate_room_provisioning_request v; initialize_over s.metadata r s
