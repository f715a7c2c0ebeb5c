-- ===== src/Room/Snapshots/Automatic.antt =====
-- apps/realtime/src/drawing-room.ts: `reconcileInitialThumbnail` and `reconcileSnapshotAutomation`.
-- The columns that record the last evaluation are not kept, since nothing but a report reads them.
use echa.Prelude.{
  ℕ, String, Bool, true, false, not, ◌&&◌, ◌||◌, Option, none, some, List, [], ◌∷◌, ltb, ◌==◌,
  if◌then◌else◌, count, ◌>>=◌,
}
use echa.Snapshot.Automation.{
  SnapshotAutomationConfig, SnapshotAutomationInput, Trigger, Decision, decide_snapshot_automation,
}
use echa.Room.Log.{Stroke, StrokeStatus, ended}
use echa.Room.Store.{
  ThumbnailState, disabled, scheduled, satisfied, waiting_for_stroke, is_active, is_idle,
}
use echa.Room.Snapshots.{
  SnapshotJob, SnapshotManifest, SnapshotStore, TriggerKind, manual, events, payload, is_queued_job,
  is_open, current_snapshot, active_strokes, ensure_room_identity,
}
use echa.Room.Snapshots.Jobs.{create_snapshot_job}

abbrev pub is_ended : StrokeStatus → Bool
is_ended ended = true
is_ended _ = false

abbrev pub set_thumbnail : ThumbnailState → SnapshotStore → SnapshotStore
set_thumbnail state s = record s {
  automation = record s.automation {
    initial_thumbnail_state = state;
    initial_thumbnail_due_at = none;
  };
}

abbrev pub has_events : Option SnapshotManifest → Bool
has_events none = false
has_events (some m) = ltb 0 m.base_room_seq

abbrev pub is_later : ℕ → Option ℕ → Bool
is_later now none = true
is_later now (some due) = ltb now due

-- Past the tests of the thumbnail's own state.
abbrev pub due_thumbnail :
    (id room_id : String) (now : ℕ) → SnapshotStore → Option (SnapshotStore × Option SnapshotJob)
due_thumbnail id room_id now s = do
  opened ← is_open s
  (if not opened then some (set_thumbnail disabled s, none) else do
    current ← current_snapshot s
    (if has_events current
        then some (set_thumbnail satisfied s, none)
        else if ltb 0 (active_strokes s) || count (λ (t : Stroke). is_ended t.status) s.strokes == 0
        then some (set_thumbnail waiting_for_stroke s, none)
        else do
          (s', j, sent) ← create_snapshot_job id room_id manual true now s
          some (s', some j)))

abbrev pub thumbnail_in :
    ThumbnailState
    → (id room_id : String) (now : ℕ) → SnapshotStore
    → Option (SnapshotStore × Option SnapshotJob)
thumbnail_in scheduled id room_id now s =
    if is_later now s.automation.initial_thumbnail_due_at
    then some (s, none)
    else due_thumbnail id room_id now s
thumbnail_in waiting_for_stroke id room_id now s = due_thumbnail id room_id now s
thumbnail_in _ id room_id now s = some (s, none)

unfoldable pub reconcile_initial_thumbnail :
    (id room_id : String) (now : ℕ) → SnapshotStore → Option (SnapshotStore × Option SnapshotJob)
reconcile_initial_thumbnail id room_id now s =
    thumbnail_in s.automation.initial_thumbnail_state id room_id now s

-- `ORDER BY generation DESC, requested_at DESC LIMIT 1`.
abbrev pub newer : SnapshotJob → Option SnapshotJob → SnapshotJob
newer j none = j
newer j (some k) =
    if ltb j.generation k.generation
      || (j.generation == k.generation && ltb j.requested_at k.requested_at)
    then k
    else j

abbrev pub last_job : List SnapshotJob → Option SnapshotJob
last_job [] = none
last_job (j ∷ js) = some (newer j (last_job js))

abbrev pub event_count_of : Option SnapshotJob → Option ℕ
event_count_of none = none
event_count_of (some j) = some j.trigger_event_count

abbrev pub payload_bytes_of : Option SnapshotJob → Option ℕ
payload_bytes_of none = none
payload_bytes_of (some j) = some j.trigger_payload_bytes

abbrev pub automation_input : SnapshotStore → SnapshotAutomationInput
automation_input s = record {
  lifecycle_active = is_active s.lifecycle.status || is_idle s.lifecycle.status;
  active_stroke_count = active_strokes s;
  queued_job_count = count is_queued_job s.jobs;
  total_event_count = s.accepted;
  total_payload_bytes = s.payload_bytes;
  last_job_event_count = event_count_of (last_job s.jobs);
  last_job_payload_bytes = payload_bytes_of (last_job s.jobs);
}

abbrev pub kind_of : Trigger → TriggerKind
kind_of Trigger.events = events
kind_of Trigger.payload = payload

abbrev pub act_on :
    Decision
    → (id room_id : String) (now : ℕ) → SnapshotStore
    → Option (SnapshotStore × Option SnapshotJob)
act_on (Decision.trigger t) id room_id now s = do
  (s', j, sent) ← create_snapshot_job id room_id (kind_of t) false now s
  some (s', some j)
act_on _ id room_id now s = some (s, none)

-- The job that the decision gives, after that of the initial thumbnail, which has an id of its own.
unfoldable pub reconcile_snapshot_automation :
    SnapshotAutomationConfig
    → (thumbnail_id id room_id : String) (now : ℕ) → SnapshotStore
    → Option (SnapshotStore × Option SnapshotJob)
reconcile_snapshot_automation config thumbnail_id id room_id now s = do
  s1 ← ensure_room_identity room_id s
  (s2, thumbnail) ← reconcile_initial_thumbnail thumbnail_id room_id now s1
  act_on (decide_snapshot_automation config (automation_input s2)).status id room_id now s2
