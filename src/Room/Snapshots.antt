-- ===== src/Room/Snapshots.antt =====
-- apps/realtime/src/drawing-room.ts: the tables of snapshots and how they are read. `none` is an
-- exception, after which the rows are not followed. Identifiers are past their patterns.
pub mod Jobs
pub mod Events
pub mod Commit
pub mod Compaction
pub mod Automatic
pub mod Rows
pub mod Invariant
pub mod Requests
pub mod Insertion
pub mod Commits
pub mod Committed
pub mod Deletion
pub mod Compacts
pub mod Rounds
pub mod Operations
pub mod Life
pub mod Worker
pub mod Replay
pub mod Rendered
pub mod Sample
mod Tests
mod Drawn
use echa.Prelude.{
  ℕ, suc, zero, ◌+◌, String, Bool, true, false, not, ◌&&◌, ◌||◌, Option, none, some, List, [], ◌∷◌,
  ltb, leb, ◌==◌, same, if◌then◌else◌, is_some, is_none, find?, select, count, max_of, length, max,
  min, ◌>>=◌, ◌>>◌, guard,
}
use echa.Protocol.Limits.{protocol_version}
use echa.Room.Log.{Stroke, StoredEvent, is_active as is_drawing}
use echa.Room.State.{LifecycleRow, room_lifecycle_state, accepts_drawing}
use echa.Room.Store.{
  JobStatus, queued_job, is_queued, SnapshotAutomation, ThumbnailState, queued, scheduled,
  waiting_for_stroke,
}

abbrev pub snapshot_renderer_version : ℕ
snapshot_renderer_version = 1

abbrev pub snapshot_canvas_generation : ℕ
snapshot_canvas_generation = 2

abbrev pub snapshot_event_chunk_limit : ℕ
snapshot_event_chunk_limit = 500

pub data TriggerKind : Type 0 where
  manual events payload : TriggerKind

-- A row of `snapshot_jobs`, by its key `job_id`.
pub record SnapshotJob : Type 0 where
  pub job_id : String
  pub room_id : String
  pub target_room_seq : ℕ
  pub protocol_version : ℕ
  pub renderer_version : ℕ
  pub canvas_generation : ℕ
  pub generation : ℕ
  pub requested_at : ℕ
  pub source_job_id : Option String
  pub source_base_room_seq : ℕ
  pub trigger_kind : TriggerKind
  pub trigger_event_count : ℕ
  pub trigger_payload_bytes : ℕ
  pub status : JobStatus

-- A row of `snapshot_manifests`, by its key `job_id`. The size of the canvas and the codec are
-- constants.
pub record SnapshotManifest : Type 0 where
  pub job_id : String
  pub room_id : String
  pub base_room_seq : ℕ
  pub protocol_version : ℕ
  pub renderer_version : ℕ
  pub canvas_generation : ℕ
  pub generation : ℕ
  pub object_key : String
  pub object_bytes : ℕ
  pub object_hash : String
  pub rgba_hash : String
  pub created_at : ℕ

-- The row of `snapshot_state`.
pub record SnapshotState : Type 0 where
  pub current_job_id : Option String
  pub previous_job_id : Option String
  pub is_compacted : Bool
  pub compacted_through : ℕ

-- `events` has the rows of `stroke_events` in the order of their key `room_seq`.
pub record SnapshotStore : Type 0 where
  pub lifecycle : LifecycleRow
  pub identity : Option String
  pub strokes : List Stroke
  pub events : List StoredEvent
  pub accepted : ℕ
  pub payload_bytes : ℕ
  pub jobs : List SnapshotJob
  pub manifests : List SnapshotManifest
  pub state : SnapshotState
  pub automation : SnapshotAutomation

abbrev pub job_is : String → SnapshotJob → Bool
job_is id j = same j.job_id id

abbrev pub manifest_is : String → SnapshotManifest → Bool
manifest_is id m = same m.job_id id

abbrev pub is_queued_job : SnapshotJob → Bool
is_queued_job j = is_queued j.status

abbrev pub is_supported : (protocol renderer canvas : ℕ) → Bool
is_supported protocol renderer canvas =
    protocol == protocol_version
    && renderer == snapshot_renderer_version
    && canvas == snapshot_canvas_generation

abbrev pub supported_job : SnapshotJob → Bool
supported_job j = is_supported j.protocol_version j.renderer_version j.canvas_generation

abbrev pub supported_manifest : SnapshotManifest → Bool
supported_manifest m =
    is_supported m.protocol_version m.renderer_version m.canvas_generation && leb 1 m.generation

-- `row ? snapshotManifestFromRow(row) : undefined`, which throws on a version that is not known.
abbrev pub manifest_from_row : Option SnapshotManifest → Option (Option SnapshotManifest)
manifest_from_row none = some none
manifest_from_row (some m) = if supported_manifest m then some (some m) else none

-- The row of a manifest.
abbrev pub manifest_row : String → SnapshotStore → Option SnapshotManifest
manifest_row id s = find? (manifest_is id) s.manifests

abbrev pub manifest_in : Option String → List SnapshotManifest → Option SnapshotManifest
manifest_in none ms = none
manifest_in (some id) ms = find? (manifest_is id) ms

abbrev pub manifest_of : Option String → SnapshotStore → Option SnapshotManifest
manifest_of id s = manifest_in id s.manifests

abbrev pub read_snapshot_manifest : String → SnapshotStore → Option (Option SnapshotManifest)
read_snapshot_manifest id s = manifest_from_row (manifest_row id s)

-- `currentSnapshot` and `previousSnapshot`.
abbrev pub current_snapshot : SnapshotStore → Option (Option SnapshotManifest)
current_snapshot s = manifest_from_row (manifest_of s.state.current_job_id s)

abbrev pub previous_snapshot : SnapshotStore → Option (Option SnapshotManifest)
previous_snapshot s = manifest_from_row (manifest_of s.state.previous_job_id s)

-- The store with the room's identity, where that is the one given.
abbrev pub identified_as : String → Option String → SnapshotStore → Option SnapshotStore
identified_as room_id none s = some (record s { identity = some room_id })
identified_as room_id (some id) s = if same id room_id then some s else none

unfoldable pub ensure_room_identity : String → SnapshotStore → Option SnapshotStore
ensure_room_identity room_id s = identified_as room_id s.identity s

-- `roomLifecycleState()` with the status `active` or `idle`.
abbrev pub is_open : SnapshotStore → Option Bool
is_open s = do state ← room_lifecycle_state s.lifecycle; some (accepts_drawing state)

-- `COALESCE(MAX(room_seq), 0)`.
abbrev pub last_room_seq : SnapshotStore → ℕ
last_room_seq s = max_of (λ (e : StoredEvent). e.room_seq) s.events

abbrev pub active_strokes : SnapshotStore → ℕ
active_strokes s = count (λ (t : Stroke). is_drawing t.status) s.strokes
