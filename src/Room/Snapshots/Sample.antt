-- ===== src/Room/Snapshots/Sample.antt =====
-- apps/realtime/src/drawing-room.ts: a small room with its tables of snapshots.
use echa.Prelude.{ℕ, ◌≤◌, refl, String, false, none, some, [], ◌∷◌, arith, eq_iff, count}
use echa.Protocol.Messages.{auto_finalized}
use echa.Room.Log.{StoredEvent}
use echa.Room.State.{LifecycleStatus}
use echa.Room.Store.{queued_job, committed_job, satisfied}
use echa.Room.Snapshots.{SnapshotJob, SnapshotManifest, SnapshotStore, manual, job_is}
use echa.Room.Snapshots.Jobs.{same_target}
use echa.Room.Snapshots.Invariant.{SnapshotInv}

abbrev pub event : ℕ → StoredEvent
event n = record {
  room_seq = n;
  actor = "actor-0001";
  connection_id = "server";
  client_seq = n;
  event = auto_finalized "stroke-0123456789-abc";
  payload_bytes = 60;
  accepted_at = 1_000;
}

abbrev pub hash : String
hash = "0123456789abcdef0123456789abcdef0123456789abcdef0123456789abcdef"

abbrev pub manifest : String → String → ℕ → ℕ → SnapshotManifest
manifest id key base generation = record {
  job_id = id;
  room_id = "room-0001";
  base_room_seq = base;
  protocol_version = 1;
  renderer_version = 1;
  canvas_generation = 2;
  generation = generation;
  object_key = key;
  object_bytes = 900;
  object_hash = hash;
  rgba_hash = hash;
  created_at = 2_000;
}

abbrev pub first_manifest : SnapshotManifest
first_manifest = manifest "job-aaaa" "rooms/room-0001/snapshots/staging/job-aaaa.kgs" 1 1

abbrev pub second_manifest : SnapshotManifest
second_manifest = manifest "job-bbbb" "rooms/room-0001/snapshots/staging/job-bbbb.kgs" 3 2

abbrev pub third_manifest : SnapshotManifest
third_manifest = manifest "job-cccc" "rooms/room-0001/snapshots/staging/job-cccc.kgs" 4 3

abbrev pub first_job : SnapshotJob
first_job = record {
  job_id = "job-aaaa";
  room_id = "room-0001";
  target_room_seq = 1;
  protocol_version = 1;
  renderer_version = 1;
  canvas_generation = 2;
  generation = 1;
  requested_at = 1_500;
  source_job_id = none;
  source_base_room_seq = 0;
  trigger_kind = manual;
  trigger_event_count = 1;
  trigger_payload_bytes = 60;
  status = committed_job;
}

abbrev pub second_job : SnapshotJob
second_job = record first_job {
  job_id = "job-bbbb";
  target_room_seq = 3;
  generation = 2;
  source_job_id = some "job-aaaa";
  source_base_room_seq = 1;
}

abbrev pub third_job : SnapshotJob
third_job = record first_job {
  job_id = "job-cccc";
  target_room_seq = 4;
  generation = 3;
  source_job_id = some "job-bbbb";
  source_base_room_seq = 3;
  status = queued_job;
}

-- Two snapshots are committed, a third is queued, and nothing is compacted yet.
abbrev pub room : SnapshotStore
room = record {
  lifecycle = record {
    status = LifecycleStatus.active;
    status_changed_at = 1_000;
    last_activity_at = some 1_900;
    close_request_id = none;
    close_reason = none;
    closing_started_at = none;
    finalized_stroke_count = 0;
    superseded_snapshot_job_count = 0;
  };
  identity = some "room-0001";
  strokes = [];
  events = event 1 ∷ event 2 ∷ event 3 ∷ event 4 ∷ [];
  accepted = 4;
  payload_bytes = 240;
  jobs = third_job ∷ second_job ∷ first_job ∷ [];
  manifests = second_manifest ∷ first_manifest ∷ [];
  state = record {
    current_job_id = some "job-bbbb";
    previous_job_id = some "job-aaaa";
    is_compacted = false;
    compacted_through = 0;
  };
  automation = record {
    pending_compaction_job_id = some "job-bbbb";
    compaction_due_at = some 2_500;
    initial_thumbnail_state = satisfied;
    initial_thumbnail_due_at = none;
    initial_thumbnail_job_id = none;
  };
}

unique_ids : (id : String) → count (job_is id) room.jobs ≤ 1
unique_ids id = ground (
  arith,
  eq_iff "job-aaaa" id,
  eq_iff "job-bbbb" id,
  eq_iff "job-cccc" id,
  eq_iff "job-aaaa" "job-bbbb",
  eq_iff "job-aaaa" "job-cccc",
  eq_iff "job-bbbb" "job-cccc",
)

unique_targets : (t : ℕ) → count (same_target t) room.jobs ≤ 1
unique_targets t = ground arith

pub room-SnapshotInv : SnapshotInv 4 room
room-SnapshotInv = record {
  current = some second_manifest;
  previous = some first_manifest;
  run = (refl, (refl, (refl, (refl, refl))));
  each_job = (
    record { below = omega arith; reached = omega arith; known = refl; kept = λ q. omega arith },
    (
      record { below = omega arith; reached = omega arith; known = refl; kept = λ q. omega arith },
      (
        record {
          below = omega arith;
          reached = omega arith;
          known = refl;
          kept = λ q. omega arith;
        },
        tt,
      ),
    ),
  );
  unique_id = unique_ids;
  unique_target = unique_targets;
  each_manifest = (refl, (refl, tt));
  is_current = refl;
  is_previous = refl;
  has_current = refl;
  has_previous = refl;
  fits = (omega arith, omega arith, omega arith);
  shadow = λ _. refl;
  made_by = (second_job, refl, refl);
}
