-- ===== src/Room/Snapshots/Tests.antt =====
-- apps/realtime/src/drawing-room.ts: a small room on which the theorems about snapshots are run.
use echa.Prelude.{◌≡◌, refl, true, none, some, [], ◌∷◌, ◌++◌, arith}
use echa.Protocol.Value.Text.{is_identifier, is_hash}
use echa.Snapshot.Automation.{compact}
use echa.Room.State.{room_lifecycle_state}
use echa.Room.Store.{committed_job}
use echa.Room.Snapshots.{SnapshotStore}
use echa.Room.Snapshots.Events.{snapshot_events}
use echa.Room.Snapshots.Commit.{
  committed, already_committed, mark_job, is_active_room, validate_snapshot_manifest,
  commit_transaction,
}
use echa.Room.Snapshots.Compaction.{
  snapshot_compaction_state, compact_snapshot_events, run_pending_snapshot_compaction,
}
use echa.Room.Snapshots.Invariant.{SnapshotInv}
use echa.Room.Snapshots.Commits.{Commits}
use echa.Room.Snapshots.Rounds.{
  compaction_alarms, IsPending, IsFinished, compaction_alarms-IsFinished,
}
use echa.Room.Snapshots.Life.{here, next, accept, SnapshotRun-SnapshotInv}
use echa.Room.Snapshots.Commit.{CommitResult}
use echa.Room.Snapshots.Committed.{Conflicts, commit_transaction_total}
use echa.Prelude.{◌⊎◌}
use echa.Room.Snapshots.Sample.{
  event, first_manifest, third_manifest, third_job, room, room-SnapshotInv,
}

abbrev third_room : SnapshotStore
third_room = record (mark_job "job-cccc" committed_job room) {
  manifests = third_manifest ∷ room.manifests;
  state = record room.state { current_job_id = some "job-cccc"; previous_job_id = some "job-bbbb" };
}

third_commit : commit_transaction third_manifest room ≡ some (third_room, committed third_manifest)
unfolding commit_transaction validate_snapshot_manifest room_lifecycle_state is_identifier is_hash
third_commit = refl

old_commit : commit_transaction first_manifest room ≡ some (room, already_committed first_manifest)
unfolding commit_transaction validate_snapshot_manifest is_identifier is_hash
old_commit = refl

one_alarm_left :
    compaction_alarms 1 compact room
    ≡ some (record room {
      events = event 2 ∷ event 3 ∷ event 4 ∷ [];
      state = record room.state { is_compacted = true; compacted_through = 1 };
      automation = record room.automation {
        pending_compaction_job_id = none;
        compaction_due_at = none;
      };
    })
unfolding compaction_alarms run_pending_snapshot_compaction compact_snapshot_events
    snapshot_compaction_state room_lifecycle_state
one_alarm_left = refl

chunk_of_third : snapshot_events "job-cccc" 2 500 room ≡ none
unfolding snapshot_events
chunk_of_third = refl

third_valid : validate_snapshot_manifest third_manifest ≡ true
unfolding validate_snapshot_manifest is_identifier is_hash
third_valid = refl

is_active : is_active_room room ≡ some true
unfolding room_lifecycle_state
is_active = refl

room-IsPending : IsPending 4 first_manifest "job-bbbb" room
room-IsPending = record {
  consistent = room-SnapshotInv;
  active = is_active;
  pending = refl;
  is_due = (2_500, refl);
  named = refl;
  is_previous = refl;
  positive = omega arith;
  unblocked = refl;
}

compaction_alarms-IsFinished_example :
    (s : SnapshotStore) × (compaction_alarms 1 compact room ≡ some s)
    × IsFinished 4 first_manifest s
compaction_alarms-IsFinished_example =
    compaction_alarms-IsFinished 1 4 first_manifest "job-bbbb" room room-IsPending (omega arith)
      (omega arith)

SnapshotRun-SnapshotInv_example :
    SnapshotInv 5 (record room { events = room.events ++ event 5 ∷ [] })
SnapshotRun-SnapshotInv_example =
    SnapshotRun-SnapshotInv room-SnapshotInv (next here (accept 4 room (event 5) refl))

commit_transaction_total_example :
    ((r : SnapshotStore × CommitResult) × (commit_transaction third_manifest room ≡ some r)
      × Commits 4 third_manifest room r)
    ⊎ ((commit_transaction third_manifest room ≡ none) × Conflicts third_manifest room)
commit_transaction_total_example =
    commit_transaction_total 4 third_manifest third_job room true room-SnapshotInv is_active
      third_valid refl refl
