-- ===== src/Room/Lifecycle.antt =====
-- apps/realtime/src/drawing-room.ts: `startRoom`, `recordRoomActivity`, `markRoomIdle`, `armIdleTask`,
-- `afterSocketClose`, `suspendRoom`, `beginRoomClose`, `ensureRoomCleanup` and `armInitialThumbnail`,
-- as far as they change the database.
-- A request is past the patterns of its fields. What `snapshotObjectKeys` reads from the tables of
-- snapshots is a field.
pub mod Statuses
pub mod Moves
pub mod Closing
use echa.Prelude.{
  ℕ, ◌+◌, String, Bool, true, false, not, ◌&&◌, ◌||◌, Option, none, some, List, [], ◌∷◌, ltb, leb,
  if◌then◌else◌, is_some, count, update, ◌==◌, length, ◌>>=◌, ◌*◌, ◌++◌, ◌>>◌, guard,
}
use echa.Protocol.Value.{includes, every, max_safe_integer}
use echa.Protocol.Value.Text.{starts_with, codes, utf16_length, is_identifier}
use echa.Protocol.Messages.{RoomStrokeEvent, AcceptedStrokeEvent}
use echa.Room.Log.{StrokeLog, finalize_active_strokes}
use echa.Room.State.{
  RoomCloseReason, CloseRequestId, LifecycleStatus, LifecycleRow, RoomLifecycleState, closing_since,
  suspended_since, room_lifecycle_state, is_over, Room, given, system,
}
use echa.Room.State
use echa.Room.Store.{
  ScheduledTasks, no_tasks, is_uninitialized, JobStatus, is_queued, RoomCleanup, RoomStore,
  set_lifecycle, set_tasks, is_active, is_idle, is_waiting, is_closing, is_suspended, disabled,
  scheduled, superseded_job,
}

abbrev pub room_idle_timeout_ms : ℕ
room_idle_timeout_ms = 30 * 60 * 1_000

abbrev pub room_empty_timeout_ms : ℕ
room_empty_timeout_ms = 10 * 60 * 1_000

abbrev pub or_else : Option ℕ → Option ℕ → Option ℕ
or_else none b = b
or_else (some a) b = some a

-- The task of a room where something happened at the given time, if it did.
abbrev idle_due : Option ℕ → ScheduledTasks → ScheduledTasks
idle_due none t = t
idle_due (some at) t = record t { idle_timeout = some (at + room_idle_timeout_ms) }

unfoldable pub arm_idle_task : Option ℕ → RoomStore → RoomStore
arm_idle_task last_activity_at s =
    if not (is_active s.room.lifecycle.status) || s.open_sockets == 0
    then set_tasks (record s.tasks { idle_timeout = none }) s
    else set_tasks (idle_due (or_else last_activity_at s.room.lifecycle.last_activity_at) s.tasks) s

-- `enabled` is the feature's switch in a public room, `delay` the configured delay.
unfoldable pub arm_initial_thumbnail :
    (enabled : Bool) (delay started_at : ℕ) → RoomStore → RoomStore
arm_initial_thumbnail enabled delay started_at s =
    if is_uninitialized s.automation.initial_thumbnail_state
    then record s {
      automation = record s.automation {
        initial_thumbnail_state = (if enabled then scheduled else disabled);
        initial_thumbnail_due_at = (if enabled then some (started_at + delay) else none);
        initial_thumbnail_job_id = none;
      };
    }
    else s

-- The writes of `startRoom` to the lifecycle and the tasks.
abbrev pub started : ℕ → RoomStore → RoomStore
started now s =
    set_tasks (record s.tasks { empty_timeout = none })
      (set_lifecycle
        (record s.room.lifecycle {
          status = State.LifecycleStatus.active;
          status_changed_at = now;
          last_activity_at = some now;
        })
        s)

-- Whether the room was started, too.
unfoldable pub start_room : (enabled : Bool) (delay now : ℕ) → RoomStore → RoomStore × Bool
start_room enabled delay now s =
    if is_waiting s.room.lifecycle.status
    then (arm_initial_thumbnail enabled delay now (arm_idle_task (some now) (started now s)), true)
    else (s, false)

-- The `UPDATE` of `recordRoomActivity`.
abbrev pub touched : ℕ → RoomStore → RoomStore
touched now s =
    let row = s.room.lifecycle in
    set_lifecycle
      (record row {
        status = State.LifecycleStatus.active;
        status_changed_at = (if is_idle row.status then now else row.status_changed_at);
        last_activity_at = some now;
      })
      s

-- Whether the room woke up, too.
unfoldable pub record_room_activity : ℕ → RoomStore → RoomStore × Bool
record_room_activity now s =
    let row = s.room.lifecycle in
    if is_active row.status || is_idle row.status
    then (arm_idle_task (some now) (touched now s), is_idle row.status)
    else (s, false)

-- `last_activity_at IS NOT NULL AND last_activity_at + ? <= ?`.
abbrev pub is_overdue : Option ℕ → ℕ → Bool
is_overdue none now = false
is_overdue (some at) now = leb (at + room_idle_timeout_ms) now

unfoldable pub mark_room_idle : ℕ → RoomStore → RoomStore × Bool
mark_room_idle now s =
    let row = s.room.lifecycle in
    if is_active row.status && is_overdue row.last_activity_at now
    then (
      set_tasks (record s.tasks { idle_timeout = none })
          (set_lifecycle
            (record row { status = State.LifecycleStatus.idle; status_changed_at = now }) s),
      true,
    )
    else (arm_idle_task none s, false)

unfoldable pub after_socket_close : ℕ → RoomStore → RoomStore
after_socket_close now s =
    let status = s.room.lifecycle.status in
    if is_closing status || is_suspended status
    then s
    else if s.open_sockets == 0
    then set_tasks
        (record s.tasks { idle_timeout = none; empty_timeout = some (now + room_empty_timeout_ms) })
        s
    else arm_idle_task none (set_tasks (record s.tasks { empty_timeout = none }) s)

abbrev pub supersede : JobStatus → JobStatus
supersede j = if is_queued j then superseded_job else j

-- What `suspendRoom` and `beginRoomClose` do to the rest of the database.
abbrev pub wind_down : StrokeLog → RoomStore → RoomStore
wind_down log s = record s {
  room = record s.room { log = log };
  tasks = no_tasks;
  tickets = [];
  read_tickets = [];
  jobs = update is_queued supersede s.jobs;
  automation = record s.automation {
    pending_compaction_job_id = none;
    compaction_due_at = none;
    initial_thumbnail_state = disabled;
    initial_thumbnail_due_at = none;
  };
}

-- `INSERT OR IGNORE` of the only row.
abbrev pub insert_cleanup : RoomCleanup → Option RoomCleanup → Option RoomCleanup
insert_cleanup job none = some job
insert_cleanup job (some present) = some present

abbrev pub room_cleanup_max_object_keys : ℕ
room_cleanup_max_object_keys = 1_000

-- `cleanupIdentifierPattern`, which an identifier of the system's matches: it has the word `system_`, a
-- kind and a time.
abbrev pub is_cleanup_identifier : CloseRequestId → Bool
is_cleanup_identifier (given id) = is_identifier 8 128 id
is_cleanup_identifier (system kind n) = true

abbrev pub is_cleanup_key : (room_id key : String) → Bool
is_cleanup_key room_id key =
    starts_with (codes "rooms/" ++ (codes room_id ++ codes "/snapshots/")) (codes key)
    && leb (utf16_length key) 1_024

-- `new Set(keys).size === keys.length`.
abbrev pub has_no_repeats : List String → Bool
has_no_repeats [] = true
has_no_repeats (k ∷ ks) = not (includes k ks) && has_no_repeats ks

-- `validateRoomCleanupJob` on the job that `ensureRoomCleanup` makes.
unfoldable pub validate_room_cleanup_job :
    (room_id : String) → CloseRequestId → (requested_at : ℕ) → List String → Bool
validate_room_cleanup_job room_id id requested_at keys =
    is_cleanup_identifier id
    && is_identifier 8 128 room_id
    && leb requested_at max_safe_integer
    && leb (length keys) room_cleanup_max_object_keys
    && every (is_cleanup_key room_id) keys
    && has_no_repeats keys

-- The insertion into `room_cleanup` needs the room's identity and a valid job.
unfoldable pub ensure_room_cleanup :
    CloseRequestId → (started_at now : ℕ) → RoomStore → Option RoomStore
ensure_room_cleanup id started_at now s = do
  room_id ← s.identity
  guard (validate_room_cleanup_job room_id id started_at s.object_keys)
  some (record s {
    cleanup =
        insert_cleanup
          (record {
            close_request_id = id;
            requested_at = started_at;
            snapshot_object_keys = s.object_keys;
            next_enqueue_at = now;
          })
          s.cleanup;
  })

-- The state after a transition, what is broadcast of the strokes, and whether it changed.
pub record Transition : Type 0 where
  pub store : RoomStore
  pub finalized : List AcceptedStrokeEvent
  pub changed : Bool

module _ (byte_length : RoomStrokeEvent → ℕ) where
  -- `suspendRoom` where the room is neither suspended nor closing.
  pub suspend_open_room : ℕ → RoomStore → Option Transition
  suspend_open_room now s = do
    (log, finalized) ← finalize_active_strokes byte_length "server_room_suspend" now none s.room.log
    some (record {
      store =
          set_lifecycle
            (record s.room.lifecycle {
              status = State.LifecycleStatus.suspended;
              status_changed_at = now;
              close_request_id = none;
              close_reason = none;
              closing_started_at = none;
              finalized_stroke_count = length finalized;
              superseded_snapshot_job_count = count is_queued s.jobs;
            })
            (wind_down log s);
      finalized = finalized;
      changed = true;
    })

  unfoldable pub suspend_room : ℕ → RoomStore → Option Transition
  unfolding suspend_open_room
  suspend_room now s = do
    existing ← room_lifecycle_state s.room.lifecycle
    (if is_over existing
        then some (record { store = s; finalized = []; changed = false })
        else suspend_open_room now s)

  -- `beginRoomClose` where the room is not closing yet.
  pub close_open_room : CloseRequestId → RoomCloseReason → ℕ → RoomStore → Option Transition
  unfolding ensure_room_cleanup
  close_open_room id reason now s = do
    (log, finalized) ← finalize_active_strokes byte_length "server_room_close" now none s.room.log
    store ← ensure_room_cleanup id now now (
        set_lifecycle
          (record s.room.lifecycle {
            status = State.LifecycleStatus.closing;
            status_changed_at = now;
            close_request_id = some id;
            close_reason = some reason;
            closing_started_at = some now;
            finalized_stroke_count = length finalized;
            superseded_snapshot_job_count = count is_queued s.jobs;
          })
          (wind_down log s))
    some (record { store = store; finalized = finalized; changed = true })

  close_existing :
      CloseRequestId → RoomCloseReason → ℕ → RoomStore → RoomLifecycleState → Option Transition
  unfolding ensure_room_cleanup close_open_room
  close_existing id reason now s (closing_since first r started_at f j) = do
    store ← ensure_room_cleanup first started_at now s
    some (record { store = store; finalized = []; changed = false })
  close_existing id reason now s _ = close_open_room id reason now s

  unfoldable pub begin_room_close :
      CloseRequestId → RoomCloseReason → ℕ → RoomStore → Option Transition
  unfolding close_existing
  begin_room_close id reason now s = do
    existing ← room_lifecycle_state s.room.lifecycle
    close_existing id reason now s existing
