-- ===== src/Room/Tests/Life.antt =====
-- apps/realtime/src/drawing-room.ts: a room with one active stroke that is closed, suspended, or left
-- alone.
use echa.Prelude.{ℕ, true, false, ◌≡◌, refl, none, some, [], ◌∷◌, is_some}
use echa.Protocol.Value.Text.{is_identifier}
use echa.Room.State.{
  active_since, given, by_host, CloseRequestId, RoomCloseReason, LifecycleStatus, closing_since,
  room_lifecycle_state,
}
use echa.Room.Store.{uninitialized, queued_job, RoomStore, set_lifecycle}
use echa.Room.Lifecycle.{
  Transition, start_room, mark_room_idle, arm_idle_task, arm_initial_thumbnail,
  validate_room_cleanup_job, begin_room_close,
}
use echa.Room.Lifecycle.Closing.{IsWoundDown, begin_room_close_lem}
use echa.Room.Lifecycle.Statuses.{Moved}
use echa.Room.Lifecycle.Moves.{starts, Life-Moved}
use echa.Room.Tests.{fresh, begun_room, size, one_drawn}

runs : Unit {0}
unfolding room_lifecycle_state start_room mark_room_idle arm_idle_task arm_initial_thumbnail
runs = tt

-- The room is busy: a stroke is active, a job waits and a task is due.
abbrev busy : RoomStore
busy = record {
  room = begun_room;
  identity = some "room-one";
  tasks = record {
    idle_timeout = some 1_801_000;
    empty_timeout = none;
    max_duration = some 3_600_000;
  };
  open_sockets = 1;
  tickets = [];
  read_tickets = "token" ∷ [];
  jobs = queued_job ∷ [];
  automation = record {
    pending_compaction_job_id = none;
    compaction_due_at = none;
    initial_thumbnail_state = uninitialized;
    initial_thumbnail_due_at = none;
    initial_thumbnail_job_id = none;
  };
  object_keys = [];
  cleanup = none;
}

busy_reads : room_lifecycle_state busy.room.lifecycle ≡ some (active_since 1_000 (some 1_000))
unfolding runs
busy_reads = refl

busy_job : validate_room_cleanup_job "room-one" (given "request-0001") 9_000 [] ≡ true
unfolding validate_room_cleanup_job is_identifier
busy_job = refl

begin_room_close_example :
    (t : Transition) × (begin_room_close size (given "request-0001") by_host 9_000 busy ≡ some t)
    × IsWoundDown busy t
    × (room_lifecycle_state t.store.room.lifecycle
        ≡ some (closing_since (given "request-0001") by_host 9_000 1 1))
    × (is_some t.store.cleanup ≡ true)
    × ((other : CloseRequestId) (why : RoomCloseReason) (later : ℕ)
        → begin_room_close size other why later t.store
          ≡ some (record { store = t.store; finalized = []; changed = false }))
begin_room_close_example =
    begin_room_close_lem size (given "request-0001") by_host 9_000 busy refl one_drawn refl busy_job
      busy_reads refl

abbrev unstarted : RoomStore
unstarted =
    set_lifecycle
      (record fresh.lifecycle { status = LifecycleStatus.waiting; last_activity_at = none }) busy

Life-Moved_example : Moved unstarted (start_room true 60_000 5_000 unstarted).0
Life-Moved_example = Life-Moved size (starts true 60_000 5_000)
