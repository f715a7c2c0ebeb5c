-- ===== src/Room/Snapshots/Compaction.antt =====
-- apps/realtime/src/drawing-room.ts: `snapshotCompactionState`, `compactSnapshotEvents`, what
-- `commitSnapshot` does after its transaction, and `runPendingSnapshotCompaction`.
use Prim.Native.String.{compare}
use text.Mathlib.Text.{is_le}
use echa.Prelude.{
  ℕ, ◌+◌, String, Bool, true, false, not, ◌&&◌, Option, none, some, List, [], ◌∷◌, ltb, leb, ◌==◌,
  same, if◌then◌else◌, is_some, is_none, select, delete, length, min, max, ◌>>=◌, ◌>>◌, guard,
}
use echa.Snapshot.Automation.{SnapshotAutomationMode, is_compact, should_arm_snapshot_compaction}
use echa.Room.Log.{StoredEvent}
use echa.Room.Snapshots.{
  SnapshotJob, SnapshotManifest, SnapshotStore, is_queued_job, manifest_of, manifest_from_row,
  previous_snapshot, snapshot_event_chunk_limit,
}
use echa.Room.Snapshots.Events.{in_range, take, bounded_limit, last_of}
use echa.Room.Snapshots.Commit.{CommitResult, superseded, is_active_room, commit_transaction}

-- `ORDER BY source_base_room_seq, requested_at, job_id`.
abbrev pub comes_first : SnapshotJob → SnapshotJob → Bool
comes_first j k =
    if j.source_base_room_seq == k.source_base_room_seq
    then if j.requested_at == k.requested_at
      then is_le (compare j.job_id k.job_id)
      else ltb j.requested_at k.requested_at
    else ltb j.source_base_room_seq k.source_base_room_seq

abbrev pub earlier : SnapshotJob → Option SnapshotJob → SnapshotJob
earlier j none = j
earlier j (some k) = if comes_first j k then j else k

-- The first queued job of that order, `LIMIT 1`.
abbrev pub blocker_of : List SnapshotJob → Option SnapshotJob
blocker_of [] = none
blocker_of (j ∷ js) =
    let rest = blocker_of js in if is_queued_job j then some (earlier j rest) else rest

pub record CompactionState : Type 0 where
  pub is_compacted : Bool
  pub compacted_through : ℕ
  pub current : Option SnapshotManifest
  pub previous : Option SnapshotManifest
  pub safe_through : ℕ
  pub blocked_by : Option String

abbrev pub base_or : ℕ → Option SnapshotManifest → ℕ
base_or through none = through
base_or through (some m) = m.base_room_seq

abbrev pub source_or : ℕ → Option SnapshotJob → ℕ
source_or desired none = desired
source_or desired (some j) = j.source_base_room_seq

abbrev pub blocking_id : ℕ → Option SnapshotJob → Option String
blocking_id desired none = none
blocking_id desired (some j) = if ltb j.source_base_room_seq desired then some j.job_id else none

-- `state.current_job_id && !current`.
abbrev pub is_missing : Option String → Option SnapshotManifest → Bool
is_missing id m = is_some id && is_none m

abbrev pub state_with :
    Option SnapshotManifest → Option SnapshotManifest → SnapshotStore → CompactionState
state_with current previous s =
    let through = s.state.compacted_through in
    let desired = base_or through previous in
    let blocker = blocker_of s.jobs in
    record {
      is_compacted = s.state.is_compacted;
      compacted_through = through;
      current = current;
      previous = previous;
      safe_through = max through (min desired (source_or desired blocker));
      blocked_by = blocking_id desired blocker;
    }

unfoldable pub snapshot_compaction_state : SnapshotStore → Option CompactionState
snapshot_compaction_state s = do
  current ← manifest_from_row (manifest_of s.state.current_job_id s)
  previous ← manifest_from_row (manifest_of s.state.previous_job_id s)
  guard (not (is_missing s.state.current_job_id current))
  guard (not (is_missing s.state.previous_job_id previous))
  some (state_with current previous s)

pub data CompactionStatus : Type 0 where
  compacted blocked not_ready stale room_closing : CompactionStatus

pub record CompactionChunk : Type 0 where
  pub status : CompactionStatus
  pub deleted_event_count : ℕ
  pub done : Bool

abbrev pub nothing_done : CompactionStatus → Bool → CompactionChunk
nothing_done status done = record { status = status; deleted_event_count = 0; done = done }

abbrev pub blocked_or_compacted : CompactionState → CompactionStatus
blocked_or_compacted c = if is_some c.blocked_by then blocked else compacted

-- The `DELETE` of the selected rows, from the first to the last.
abbrev pub delete_rows : List StoredEvent → List StoredEvent → List StoredEvent
delete_rows [] events = events
delete_rows (e ∷ rows) events =
    delete
      (λ (d : StoredEvent). leb e.room_seq d.room_seq && leb d.room_seq (last_of e.room_seq rows))
      events

-- The number through which the log is compacted now.
abbrev pub through_after : (limit : ℕ) → CompactionState → List StoredEvent → ℕ
through_after limit c rows =
    if ltb (length rows) limit then c.safe_through else last_of c.compacted_through rows

abbrev pub compact_rows :
    (limit : ℕ) → CompactionState → List StoredEvent → SnapshotStore → SnapshotStore
compact_rows limit c rows s = record s {
  events = delete_rows rows s.events;
  state = record s.state { is_compacted = true; compacted_through = through_after limit c rows };
}

abbrev pub compact_to :
    (limit desired : ℕ) → CompactionState → SnapshotStore → Option (SnapshotStore × CompactionChunk)
compact_to limit desired c s =
    if leb c.safe_through c.compacted_through
    then some (s, nothing_done (blocked_or_compacted c) (leb desired c.compacted_through))
    else let rows = take limit (select (in_range c.compacted_through c.safe_through) s.events) in
      let s' = compact_rows limit c rows s in
      do
        after ← snapshot_compaction_state s'
        some (
          s',
          record {
            status = blocked_or_compacted after;
            deleted_event_count = length rows;
            done = leb desired after.compacted_through;
          },
        )

abbrev pub compact_before :
    (limit : ℕ)
    → Option SnapshotManifest
    → CompactionState
    → SnapshotStore
    → Option (SnapshotStore × CompactionChunk)
compact_before limit none c s = some (s, nothing_done not_ready false)
compact_before limit (some m) c s =
    if m.base_room_seq == 0
    then some (s, nothing_done not_ready false)
    else compact_to limit m.base_room_seq c s

abbrev pub is_current : String → Option SnapshotManifest → Bool
is_current id none = false
is_current id (some m) = same m.job_id id

unfoldable pub compact_snapshot_events :
    (current_job_id : String) (limit : ℕ) → SnapshotStore → Option (SnapshotStore × CompactionChunk)
compact_snapshot_events current_job_id limit s = do
  before ← snapshot_compaction_state s
  is_active ← is_active_room s
  (if not is_active
      then some (s, nothing_done room_closing false)
      else if not (is_current current_job_id before.current)
      then some (s, nothing_done stale false)
      else compact_before (bounded_limit limit) before.previous before s)

abbrev pub set_pending : Option String → Option ℕ → SnapshotStore → SnapshotStore
set_pending id due s = record s {
  automation = record s.automation { pending_compaction_job_id = id; compaction_due_at = due };
}

abbrev pub is_due_for : String → CompactionState → Bool
is_due_for id c =
    is_current id c.current
    && is_some c.previous
    && ltb c.compacted_through (base_or c.compacted_through c.previous)

abbrev pub base_of : Option SnapshotManifest → Option ℕ
base_of none = none
base_of (some m) = some m.base_room_seq

-- After the transaction, unless the job was superseded.
abbrev pub arm_compaction :
    SnapshotAutomationMode → (id : String) (now : ℕ) → SnapshotStore → Option SnapshotStore
arm_compaction mode id now s = do
  previous ← previous_snapshot s
  (if should_arm_snapshot_compaction mode (base_of previous)
      then (do
        c ← snapshot_compaction_state s
        some (if is_due_for id c then set_pending (some id) (some now) s else s))
      else some s)

abbrev pub after_commit :
    SnapshotAutomationMode
    → (id : String) (now : ℕ) → CommitResult
    → SnapshotStore
    → Option SnapshotStore
after_commit mode id now superseded s = some s
after_commit mode id now _ s = arm_compaction mode id now s

-- The configured mode is a parameter, which the environment gives.
unfoldable pub commit_snapshot :
    SnapshotAutomationMode
    → (now : ℕ) → SnapshotManifest
    → SnapshotStore
    → Option (SnapshotStore × CommitResult)
commit_snapshot mode now m s = do
  (s', result) ← commit_transaction m s
  s'' ← after_commit mode m.job_id now result s'
  some (s'', result)

abbrev pub is_past : ℕ → Option ℕ → Bool
is_past now none = false
is_past now (some due) = leb due now

abbrev pub retry_at : ℕ → CompactionChunk → Option ℕ
retry_at now c = elim c.status [
  | blocked ↦ some (now + 1_000)
  | compacted ↦ if c.done then none else some (now + 100)
  | _ ↦ none
]

abbrev pub id_if : Option ℕ → String → Option String
id_if none id = none
id_if (some due) id = some id

abbrev pub run_compaction :
    SnapshotAutomationMode → (now : ℕ) → Option String → SnapshotStore → Option SnapshotStore
run_compaction mode now none s = some s
run_compaction mode now (some id) s =
    if not (is_past now s.automation.compaction_due_at)
    then some s
    else if not (is_compact mode)
    then some (set_pending none none s)
    else do
      (s', chunk) ← compact_snapshot_events id snapshot_event_chunk_limit s
      some (set_pending (id_if (retry_at now chunk) id) (retry_at now chunk) s')

unfoldable pub run_pending_snapshot_compaction :
    SnapshotAutomationMode → (now : ℕ) → SnapshotStore → Option SnapshotStore
run_pending_snapshot_compaction mode now s =
    run_compaction mode now s.automation.pending_compaction_job_id s
