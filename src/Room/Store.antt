-- ===== src/Room/Store.antt =====
-- apps/realtime/src/drawing-room.ts: the part of a room's database that its lifecycle reads and writes.
use echa.Prelude.{ℕ, String, Bool, true, false, Option, none, List}
use echa.Room.State.{CloseRequestId, LifecycleStatus, LifecycleRow, Room}
use echa.Room.State
use echa.Room.Tickets.{RoomTicket}

-- `scheduled_tasks`, by the three kinds that its key admits.
pub record ScheduledTasks : Type 0 where
  pub idle_timeout : Option ℕ
  pub empty_timeout : Option ℕ
  pub max_duration : Option ℕ

abbrev pub no_tasks : ScheduledTasks
no_tasks = record { idle_timeout = none; empty_timeout = none; max_duration = none }

pub data ThumbnailState : Type 0 where
  uninitialized disabled scheduled waiting_for_stroke queued satisfied : ThumbnailState

abbrev pub is_uninitialized : ThumbnailState → Bool
is_uninitialized uninitialized = true
is_uninitialized _ = false

-- The columns of `snapshot_automation` that the lifecycle writes.
pub record SnapshotAutomation : Type 0 where
  pub pending_compaction_job_id : Option String
  pub compaction_due_at : Option ℕ
  pub initial_thumbnail_state : ThumbnailState
  pub initial_thumbnail_due_at : Option ℕ
  pub initial_thumbnail_job_id : Option String

-- The status of a row of `snapshot_jobs`.
pub data JobStatus : Type 0 where
  queued_job committed_job superseded_job : JobStatus

abbrev pub is_queued : JobStatus → Bool
is_queued queued_job = true
is_queued _ = false

-- The row of `room_cleanup`; `jobId` is the close request's id too.
pub record RoomCleanup : Type 0 where
  pub close_request_id : CloseRequestId
  pub requested_at : ℕ
  pub snapshot_object_keys : List String
  pub next_enqueue_at : ℕ

pub record RoomStore : Type 0 where
  pub room : Room
  pub identity : Option String
  pub tasks : ScheduledTasks
  pub open_sockets : ℕ
  pub tickets : List RoomTicket
  pub read_tickets : List String
  pub jobs : List JobStatus
  pub automation : SnapshotAutomation
  pub object_keys : List String
  pub cleanup : Option RoomCleanup

abbrev pub set_lifecycle : LifecycleRow → RoomStore → RoomStore
set_lifecycle row s = record s { room = record s.room { lifecycle = row } }

abbrev pub set_tasks : ScheduledTasks → RoomStore → RoomStore
set_tasks t s = record s { tasks = t }

abbrev pub is_active : LifecycleStatus → Bool
is_active State.LifecycleStatus.active = true
is_active _ = false

abbrev pub is_idle : LifecycleStatus → Bool
is_idle State.LifecycleStatus.idle = true
is_idle _ = false

abbrev pub is_waiting : LifecycleStatus → Bool
is_waiting State.LifecycleStatus.waiting = true
is_waiting _ = false

abbrev pub is_closing : LifecycleStatus → Bool
is_closing State.LifecycleStatus.closing = true
is_closing _ = false

abbrev pub is_suspended : LifecycleStatus → Bool
is_suspended State.LifecycleStatus.suspended = true
is_suspended _ = false
