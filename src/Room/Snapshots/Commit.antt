-- ===== src/Room/Snapshots/Commit.antt =====
-- apps/realtime/src/drawing-room.ts: `validateSnapshotManifest` and `commitSnapshot`.
use echa.Prelude.{
  ℕ, String, Bool, true, false, not, ◌&&◌, ◌||◌, Option, none, some, List, ◌∷◌, ◌++◌, ltb, leb,
  ◌==◌, same, if◌then◌else◌, is_some, find?, update, ◌>>=◌, ◌>>◌, guard,
}
use echa.Protocol.Value.{max_safe_integer}
use echa.Protocol.Value.Text.{codes, starts_with, is_identifier, is_hash}
use echa.Room.State.{RoomLifecycleState, active_since, room_lifecycle_state}
use echa.Room.Store.{
  JobStatus, committed_job, superseded_job, is_queued, SnapshotAutomation, ThumbnailState, disabled,
  satisfied,
}
use echa.Room.Snapshots.{
  SnapshotJob, SnapshotManifest, SnapshotStore, job_is, manifest_is, is_supported,
  read_snapshot_manifest, current_snapshot,
}

pub data CommitResult : Type 0 where
  committed : SnapshotManifest → CommitResult
  already_committed : SnapshotManifest → CommitResult
  superseded : CommitResult

-- `rooms/${roomId}/snapshots/staging/`.
abbrev pub staging_prefix : String → List ℕ
staging_prefix room_id = codes "rooms/" ++ (codes room_id ++ codes "/snapshots/staging/")

unfoldable pub validate_snapshot_manifest : SnapshotManifest → Bool
validate_snapshot_manifest m =
    is_identifier 8 128 m.job_id
    && is_identifier 8 128 m.room_id
    && leb m.base_room_seq max_safe_integer
    && is_supported m.protocol_version m.renderer_version m.canvas_generation
    && leb m.generation max_safe_integer
    && leb 1 m.generation
    && starts_with (staging_prefix m.room_id) (codes m.object_key)
    && leb m.object_bytes max_safe_integer
    && leb 1 m.object_bytes
    && is_hash 64 m.object_hash
    && is_hash 64 m.rgba_hash
    && leb m.created_at max_safe_integer
    && leb 1 m.created_at

abbrev pub matches_job : SnapshotManifest → SnapshotJob → Bool
matches_job m j =
    same j.room_id m.room_id
    && j.target_room_seq == m.base_room_seq
    && j.protocol_version == m.protocol_version
    && j.renderer_version == m.renderer_version
    && j.canvas_generation == m.canvas_generation
    && j.generation == m.generation

abbrev pub same_output : SnapshotManifest → SnapshotManifest → Bool
same_output m n =
    same m.object_hash n.object_hash
    && same m.rgba_hash n.rgba_hash
    && same m.object_key n.object_key

abbrev pub set_status : JobStatus → SnapshotJob → SnapshotJob
set_status status j = record j { status = status }

-- `UPDATE snapshot_jobs SET status = … WHERE job_id = …`.
abbrev pub mark_job : String → JobStatus → SnapshotStore → SnapshotStore
mark_job id status s = record s { jobs = update (job_is id) (set_status status) s.jobs }

abbrev pub is_active_state : RoomLifecycleState → Bool
is_active_state (active_since c a) = true
is_active_state _ = false

-- `roomLifecycleState().status === "active"`.
abbrev pub is_active_room : SnapshotStore → Option Bool
is_active_room s = do state ← room_lifecycle_state s.lifecycle; some (is_active_state state)

abbrev pub is_settled : ThumbnailState → Bool
is_settled disabled = true
is_settled satisfied = true
is_settled _ = false

-- A snapshot that is not empty serves as the initial thumbnail.
abbrev pub satisfied_by : SnapshotManifest → SnapshotAutomation → SnapshotAutomation
satisfied_by m a =
    if leb 1 m.base_room_seq && not (is_settled a.initial_thumbnail_state)
    then record a {
      initial_thumbnail_state = satisfied;
      initial_thumbnail_due_at = none;
      initial_thumbnail_job_id = some m.job_id;
    }
    else a

abbrev pub same_key : SnapshotManifest → SnapshotManifest → Bool
same_key m n = same n.object_key m.object_key

-- `INSERT INTO snapshot_manifests`, whose keys are the job's id and the object's key, and what
-- follows it.
abbrev pub insert_manifest : SnapshotManifest → SnapshotStore → Option SnapshotStore
insert_manifest m s =
    if is_some (find? (manifest_is m.job_id) s.manifests)
      || is_some (find? (same_key m) s.manifests)
    then none
    else some (record (mark_job m.job_id committed_job s) {
      manifests = m ∷ s.manifests;
      state = record s.state {
        previous_job_id = s.state.current_job_id;
        current_job_id = some m.job_id;
      };
      automation = satisfied_by m s.automation;
    })

-- `current && current.baseRoomSeq > manifest.baseRoomSeq`.
abbrev pub is_older : SnapshotManifest → Option SnapshotManifest → Bool
is_older m none = false
is_older m (some current) = ltb m.base_room_seq current.base_room_seq

-- The row is replaced by nothing newer: it is inserted, or the job is superseded.
abbrev pub commit_over :
    SnapshotManifest
    → Option SnapshotManifest
    → SnapshotStore
    → Option (SnapshotStore × CommitResult)
commit_over m current s =
    if is_older m current
    then some (mark_job m.job_id superseded_job s, superseded)
    else do s' ← insert_manifest m s; some (s', committed m)

abbrev pub commit_new :
    SnapshotManifest → SnapshotJob → SnapshotStore → Option (SnapshotStore × CommitResult)
commit_new m j s =
    if is_queued j.status
    then (do
      is_active ← is_active_room s
      (if is_active
          then (do current ← current_snapshot s; commit_over m current s)
          else some (mark_job m.job_id superseded_job s, superseded)))
    else some (mark_job m.job_id superseded_job s, superseded)

abbrev pub commit_again :
    SnapshotManifest
    → SnapshotJob
    → Option SnapshotManifest
    → SnapshotStore
    → Option (SnapshotStore × CommitResult)
commit_again m j none s = commit_new m j s
commit_again m j (some c) s = if same_output c m then some (s, already_committed c) else none

-- The transaction of `commitSnapshot`.
unfoldable pub commit_transaction :
    SnapshotManifest → SnapshotStore → Option (SnapshotStore × CommitResult)
commit_transaction m s = do
  guard (validate_snapshot_manifest m)
  j ← find? (job_is m.job_id) s.jobs
  guard (matches_job m j)
  before ← read_snapshot_manifest m.job_id s
  commit_again m j before s
