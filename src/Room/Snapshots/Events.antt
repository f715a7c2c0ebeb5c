-- ===== src/Room/Snapshots/Events.antt =====
-- apps/realtime/src/drawing-room.ts: `snapshotEvents`, `snapshotJobDisposition` and `snapshotSource`.
use echa.Prelude.{
  ℕ, suc, zero, String, Bool, false, ◌&&◌, Option, none, some, List, [], ◌∷◌, ltb, leb, ◌==◌, same,
  if◌then◌else◌, find?, select, length, max, min, ◌>>=◌, ◌>>◌, guard,
}
use echa.Room.Log.{StoredEvent}
use echa.Room.Store.{is_queued}
use echa.Room.Snapshots.{
  snapshot_event_chunk_limit, SnapshotJob, SnapshotManifest, SnapshotStore, job_is, supported_job,
  read_snapshot_manifest, is_open,
}

-- `WHERE room_seq > after AND room_seq <= through`.
abbrev pub in_range : ℕ → ℕ → StoredEvent → Bool
in_range after through e = ltb after e.room_seq && leb e.room_seq through

abbrev pub take {ℓ} : {A : Type ℓ} → ℕ → List A → List A
take zero xs = []
take (suc n) [] = []
take (suc n) (x ∷ xs) = x ∷ take n xs

-- `Math.min(SNAPSHOT_EVENT_CHUNK_LIMIT, Math.max(1, limit))`.
abbrev pub bounded_limit : ℕ → ℕ
bounded_limit limit = min snapshot_event_chunk_limit (max 1 limit)

-- The number of the last row, `events.at(-1)?.roomSeq ?? after`.
abbrev pub last_of : ℕ → List StoredEvent → ℕ
last_of after [] = after
last_of after (e ∷ es) = last_of e.room_seq es

pub record SnapshotEventChunk : Type 0 where
  pub job : SnapshotJob
  pub events : List StoredEvent
  pub next_after_room_seq : ℕ
  pub done : Bool

abbrev pub chunk_of : SnapshotJob → ℕ → List StoredEvent → Option SnapshotEventChunk
chunk_of j after rows =
    if ltb (last_of after rows) j.target_room_seq && length rows == 0
    then none
    else if supported_job j
    then some (record {
      job = j;
      events = rows;
      next_after_room_seq = last_of after rows;
      done = last_of after rows == j.target_room_seq;
    })
    else none

unfoldable pub snapshot_events :
    (job_id : String) (after limit : ℕ) → SnapshotStore → Option SnapshotEventChunk
snapshot_events job_id after limit s = do
  j ← find? (job_is job_id) s.jobs
  guard (leb after j.target_room_seq)
  guard (leb j.source_base_room_seq after)
  chunk_of j after (take (bounded_limit limit) (select (in_range after j.target_room_seq) s.events))

-- `job?.status === "queued"`.
abbrev pub is_queued_row : Option SnapshotJob → Bool
is_queued_row none = false
is_queued_row (some j) = is_queued j.status

-- Whether the queue's consumer runs the job.
unfoldable pub snapshot_job_disposition : String → SnapshotStore → Option Bool
snapshot_job_disposition job_id s = do
  opened ← is_open s
  some (opened && is_queued_row (find? (job_is job_id) s.jobs))

abbrev pub is_source_of : SnapshotJob → SnapshotManifest → Bool
is_source_of j m =
    same m.room_id j.room_id
    && m.base_room_seq == j.source_base_room_seq
    && ltb m.base_room_seq j.target_room_seq
    && m.protocol_version == j.protocol_version
    && m.renderer_version == j.renderer_version
    && m.canvas_generation == j.canvas_generation

abbrev pub source_of :
    SnapshotJob → Option String → SnapshotStore → Option (Option SnapshotManifest)
source_of j none s = if j.source_base_room_seq == 0 then some none else none
source_of j (some id) s = do
  row ← read_snapshot_manifest id s
  m ← row
  guard (is_source_of j m)
  some (some m)

unfoldable pub snapshot_source : String → SnapshotStore → Option (Option SnapshotManifest)
snapshot_source job_id s = do j ← find? (job_is job_id) s.jobs; source_of j j.source_job_id s
