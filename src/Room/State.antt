-- ===== src/Room/State.antt =====
-- apps/realtime/src/drawing-room.ts: the storage of the durable object, `roomLifecycleState` and the
-- attachments of its sockets. Times are milliseconds. The statuses that the tables restrict by a
-- CHECK are data types.
use echa.Prelude.{
  ℕ, String, Bool, true, false, Option, none, some, List, same, if◌then◌else◌, ◌≡◌, arith,
}
use echa.Protocol.Messages.{RoomRole}
use echa.Room.Log.{StrokeLog}
use echa.Room.Tokens.{Bucket}

pub data RoomCloseReason : Type 0 where
  by_host empty_timeout max_duration activity_limit by_admin by_account by_probe : RoomCloseReason

-- The text of a close request's identifier; `system kind n` is the text `system_<kind>_<n>`.
pub data CloseRequestId : Type 0 where
  given : String → CloseRequestId
  system : RoomCloseReason → ℕ → CloseRequestId

-- `!id` is false but for the empty text.
abbrev pub is_blank : CloseRequestId → Bool
is_blank (given id) = same id ""
is_blank (system kind n) = false

pub data LifecycleStatus : Type 0 where
  waiting active idle closing suspended : LifecycleStatus

-- The row of `room_lifecycle`.
pub record LifecycleRow : Type 0 where
  pub status : LifecycleStatus
  pub status_changed_at : ℕ
  pub last_activity_at : Option ℕ
  pub close_request_id : Option CloseRequestId
  pub close_reason : Option RoomCloseReason
  pub closing_started_at : Option ℕ
  pub finalized_stroke_count : ℕ
  pub superseded_snapshot_job_count : ℕ

-- packages/protocol/src/lifecycle.ts: `RoomLifecycleState`.
pub data RoomLifecycleState : Type 0 where
  waiting_since : (changed_at : ℕ) → RoomLifecycleState
  active_since : (changed_at : ℕ) (last_activity_at : Option ℕ) → RoomLifecycleState
  idle_since : (changed_at last_activity_at : ℕ) → RoomLifecycleState
  suspended_since : (changed_at : ℕ) → RoomLifecycleState
  closing_since :
      (close_request_id : CloseRequestId) (reason : RoomCloseReason)
      (started_at finalized_stroke_count superseded_snapshot_job_count : ℕ)
      → RoomLifecycleState

-- The tests below the `status` tests of `roomLifecycleState`: an absent or empty identifier throws.
abbrev closing_state : LifecycleRow → Option RoomLifecycleState
closing_state row = elim row.close_request_id [
  | none ↦ none
  | some id ↦ elim row.close_reason [
    | none ↦ none
    | some reason ↦ elim row.closing_started_at [
      | none ↦ none
      | some at ↦
          if is_blank id
          then none
          else some (
              closing_since id reason at row.finalized_stroke_count
                row.superseded_snapshot_job_count)
    ]
  ]
]

state_of_status : LifecycleStatus → LifecycleRow → Option RoomLifecycleState
state_of_status waiting row = some (waiting_since row.status_changed_at)
state_of_status active row = some (active_since row.status_changed_at row.last_activity_at)
state_of_status idle row = elim row.last_activity_at [
  | none ↦ closing_state row
  | some at ↦ some (idle_since row.status_changed_at at)
]
state_of_status suspended row = some (suspended_since row.status_changed_at)
state_of_status closing row = closing_state row

-- `none` is the error "room lifecycle state is inconsistent".
unfoldable pub room_lifecycle_state : LifecycleRow → Option RoomLifecycleState
unfolding state_of_status
room_lifecycle_state row = state_of_status row.status row

-- `status === "active" || status === "idle"`.
abbrev pub accepts_drawing : RoomLifecycleState → Bool
accepts_drawing (active_since c a) = true
accepts_drawing (idle_since c a) = true
accepts_drawing _ = false

-- `status === "closing" || status === "suspended"`.
abbrev pub is_over : RoomLifecycleState → Bool
is_over (suspended_since c) = true
is_over (closing_since i r s f j) = true
is_over _ = false

abbrev pub is_closing_state : RoomLifecycleState → Bool
is_closing_state (closing_since i r a f j) = true
is_closing_state _ = false

abbrev pub is_waiting : RoomLifecycleState → Bool
is_waiting (waiting_since c) = true
is_waiting _ = false

-- A row of `connections`, by its key `connection_id`; each bucket is two columns.
pub record Connection : Type 0 where
  pub connection_id : String
  pub actor : String
  pub last_client_seq : ℕ
  pub rate : Bucket
  pub cursor_rate : Bucket
  pub chat_rate : Bucket
  pub role : RoomRole
  pub can_chat : Bool
  pub display_name : Option String
  pub avatar_url : Option String

-- `ConnectionAttachment`.
pub record ConnectionAttachment : Type 0 where
  pub actor : String
  pub connection_id : String
  pub role : RoomRole
  pub room_id : String

-- A row of `actor_abuse_state`, by its key `actor_id`.
pub record ActorAbuse : Type 0 where
  pub actor_id : String
  pub violation_count : ℕ
  pub window_started_at : ℕ
  pub muted_until : ℕ
  pub disconnected_at : Option ℕ

-- The row of `room_activity_limit`.
pub record ActivityLimit : Type 0 where
  pub warning_level : ℕ
  pub reached_at : Option ℕ

-- What the handlers of drawing events read and write.
pub record Room : Type 0 where
  pub lifecycle : LifecycleRow
  pub connections : List Connection
  pub log : StrokeLog
  pub activity_limit : ActivityLimit

abbrev pub connection_is : String → Connection → Bool
connection_is id c = same c.connection_id id

closing_state_reads :
    (row : LifecycleRow) {state : RoomLifecycleState}
    → closing_state row ≡ some state
    → is_closing_state state ≡ true
closing_state_reads row h = ground arith

state_of_closing :
    (status : LifecycleStatus) (row : LifecycleRow) {state : RoomLifecycleState}
    → status ≡ closing
    → state_of_status status row ≡ some state
    → is_closing_state state ≡ true
unfolding state_of_status
state_of_closing status row e h = let h' = rw e at h in closing_state_reads row h'

-- A closing room reads as closing.
pub closing_room_reads :
    (row : LifecycleRow) {state : RoomLifecycleState}
    → row.status ≡ closing
    → room_lifecycle_state row ≡ some state
    → is_closing_state state ≡ true
unfolding room_lifecycle_state
closing_room_reads row e h = state_of_closing row.status row e h
