-- ===== src/Room/Snapshots/Jobs.antt =====
-- apps/realtime/src/drawing-room.ts: `createSnapshotJob`. The queue's `send` is the caller's, with the
-- job returned.
use echa.Prelude.{
  ℕ, ◌+◌, String, Bool, true, false, ◌&&◌, Option, none, some, ◌∷◌, leb, ◌==◌, same, if◌then◌else◌,
  is_some, find?, max_of, ◌>>=◌, ◌>>◌, guard,
}
use echa.Room.Store.{queued_job, is_queued, ThumbnailState, queued, scheduled, waiting_for_stroke}
use echa.Room.Snapshots.{
  snapshot_renderer_version, snapshot_canvas_generation, TriggerKind, SnapshotJob, SnapshotManifest,
  SnapshotStore, job_is, is_supported, supported_job, current_snapshot, ensure_room_identity,
  is_open, last_room_seq, active_strokes,
}

abbrev pub awaits_thumbnail : ThumbnailState → Bool
awaits_thumbnail scheduled = true
awaits_thumbnail waiting_for_stroke = true
awaits_thumbnail _ = false

-- `reserveInitialThumbnailJob`.
unfoldable pub reserve_initial_thumbnail_job : String → SnapshotStore → SnapshotStore
reserve_initial_thumbnail_job job_id s =
    if awaits_thumbnail s.automation.initial_thumbnail_state
    then record s {
      automation = record s.automation {
        initial_thumbnail_state = queued;
        initial_thumbnail_due_at = none;
        initial_thumbnail_job_id = some job_id;
      };
    }
    else s

abbrev pub reserved : Bool → String → SnapshotStore → SnapshotStore
reserved reserve job_id s = if reserve then reserve_initial_thumbnail_job job_id s else s

-- The job with the same target, and whether it is sent again.
abbrev pub reuse_job :
    (reserve : Bool) (room_id : String)
    → SnapshotJob
    → SnapshotStore
    → Option (SnapshotStore × SnapshotJob × Bool)
reuse_job reserve room_id j s =
    if same j.room_id room_id
    then if supported_job j
      then some
          ((if is_queued j.status then reserved reserve j.job_id s else s), j, is_queued j.status)
      else none
    else none

-- A manifest that the new job may start from, other than one of the same target.
abbrev pub incremental_source :
    (room_id : String) (last : ℕ) → Option SnapshotManifest → Option (Option SnapshotManifest)
incremental_source room_id last none = some none
incremental_source room_id last (some m) =
    if same m.room_id room_id
      && leb m.base_room_seq last
      && is_supported m.protocol_version m.renderer_version m.canvas_generation
    then some (if m.base_room_seq == last then none else some m)
    else none

abbrev pub source_base : Option SnapshotManifest → ℕ
source_base none = 0
source_base (some m) = m.base_room_seq

abbrev pub source_id : Option SnapshotManifest → Option String
source_id none = none
source_id (some m) = some m.job_id

-- `id` is what `crypto.randomUUID` returns, `now` what `Date.now` does.
abbrev pub new_job :
    (id room_id : String) (kind : TriggerKind) (now : ℕ)
    → Option SnapshotManifest
    → SnapshotStore
    → SnapshotJob
new_job id room_id kind now source s = record {
  job_id = id;
  room_id = room_id;
  target_room_seq = last_room_seq s;
  protocol_version = 1;
  renderer_version = snapshot_renderer_version;
  canvas_generation = snapshot_canvas_generation;
  generation = max_of (λ (j : SnapshotJob). j.generation) s.jobs + 1;
  requested_at = now;
  source_job_id = source_id source;
  source_base_room_seq = source_base source;
  trigger_kind = kind;
  trigger_event_count = s.accepted;
  trigger_payload_bytes = s.payload_bytes;
  status = queued_job;
}

abbrev pub same_target : ℕ → SnapshotJob → Bool
same_target last j = j.target_room_seq == last && j.renderer_version == snapshot_renderer_version

-- `INSERT INTO snapshot_jobs`, whose keys are the id, and the target with the renderer's version.
abbrev pub insert_job : SnapshotJob → SnapshotStore → Option SnapshotStore
insert_job j s =
    if is_some (find? (job_is j.job_id) s.jobs) then none else some (record s { jobs = j ∷ s.jobs })

abbrev pub create_new :
    (id room_id : String) (kind : TriggerKind) (reserve : Bool) (now : ℕ)
    → SnapshotStore
    → Option (SnapshotStore × SnapshotJob × Bool)
create_new id room_id kind reserve now s = do
  current ← current_snapshot s
  source ← incremental_source room_id (last_room_seq s) current
  let j = new_job id room_id kind now source s
  s' ← insert_job j s
  some (reserved reserve id s', j, true)

abbrev pub create_or_reuse :
    (id room_id : String) (kind : TriggerKind) (reserve : Bool) (now : ℕ)
    → Option SnapshotJob
    → SnapshotStore
    → Option (SnapshotStore × SnapshotJob × Bool)
create_or_reuse id room_id kind reserve now none s = create_new id room_id kind reserve now s
create_or_reuse id room_id kind reserve now (some j) s = reuse_job reserve room_id j s

-- The job, and whether it is sent to the queue.
unfoldable pub create_snapshot_job :
    (id room_id : String) (kind : TriggerKind) (reserve : Bool) (now : ℕ)
    → SnapshotStore
    → Option (SnapshotStore × SnapshotJob × Bool)
create_snapshot_job id room_id kind reserve now s = do
  s' ← ensure_room_identity room_id s
  opened ← is_open s'
  guard opened
  guard (active_strokes s' == 0)
  create_or_reuse id room_id kind reserve now (find? (same_target (last_room_seq s')) s'.jobs) s'
