-- ===== src/Room/Snapshots/Operations.antt =====
-- apps/realtime/src/drawing-room.ts: commits, alarms and the automation on consistent tables.
use mathlib.Core.Path.{subst}
use echa.Prelude.{
  ℕ, ◌≡◌, inl, inr, String, true, false, ◌||◌, ltb, ◌==◌, Option, none, some, if◌then◌else◌, count,
  Bool-cases, bind-some, some_inj, ◌>>=◌,
}
use echa.Snapshot.Automation.{
  SnapshotAutomationMode, SnapshotAutomationConfig, Decision, is_compact,
  should_arm_snapshot_compaction, decide_snapshot_automation,
}
use echa.Room.Log.{Stroke}
use echa.Room.Store.{
  ThumbnailState, uninitialized, disabled, scheduled, waiting_for_stroke, queued, satisfied,
}
use echa.Room.Snapshots.{
  SnapshotJob, SnapshotManifest, SnapshotStore, manual, current_snapshot, is_open,
  ensure_room_identity, snapshot_event_chunk_limit, previous_snapshot, active_strokes,
}
use echa.Room.Snapshots.Jobs.{create_snapshot_job}
use echa.Room.Snapshots.Commit.{
  CommitResult, committed, already_committed, superseded, commit_transaction,
}
use echa.Room.Snapshots.Compaction.{
  arm_compaction, after_commit, commit_snapshot, run_compaction, compact_snapshot_events,
  snapshot_compaction_state, base_of, is_past, is_due_for,
}
use echa.Room.Snapshots.Automatic.{
  thumbnail_in, due_thumbnail, reconcile_initial_thumbnail, act_on, automation_input,
  reconcile_snapshot_automation, kind_of, is_ended, is_later, set_thumbnail, has_events,
}
use echa.Room.Snapshots.Invariant.{SnapshotInv}
use echa.Room.Snapshots.Requests.{create_snapshot_job-SnapshotInv, ensure_room_identity-SnapshotInv}
use echa.Room.Snapshots.Commits.{commit_transaction_lem}
use echa.Room.Snapshots.Compacts.{compact_snapshot_events-SnapshotInv}

arm_compaction-SnapshotInv :
    (last : ℕ) (mode : SnapshotAutomationMode) (id : String) (now : ℕ) (s s' : SnapshotStore)
    → SnapshotInv last s
    → arm_compaction mode id now s ≡ some s'
    → SnapshotInv last s'
arm_compaction-SnapshotInv last mode id now s s' inv e =
    let (previous, read, e1) = bind-some (previous_snapshot s) _ e in
    elim (Bool-cases (should_arm_snapshot_compaction mode (base_of previous))) [
      | inr off ↦ subst (SnapshotInv last) (some_inj _ _ (rw off at e1)) inv
      | inl on ↦
          let (c, state, e2) = bind-some (snapshot_compaction_state s) _ (rw on at e1) in
          elim (Bool-cases (is_due_for id c)) [
            | inl due ↦ subst (SnapshotInv last) (some_inj _ _ (rw due at e2)) inv
            | inr idle ↦ subst (SnapshotInv last) (some_inj _ _ (rw idle at e2)) inv
          ]
    ]

-- What follows the transaction of a commit writes the automation's row at most.
after_commit-SnapshotInv :
    (last : ℕ) (mode : SnapshotAutomationMode) (id : String) (now : ℕ) (result : CommitResult)
    (s s' : SnapshotStore)
    → SnapshotInv last s
    → after_commit mode id now result s ≡ some s'
    → SnapshotInv last s'
after_commit-SnapshotInv last mode id now superseded s s' inv e =
    subst (SnapshotInv last) (some_inj _ _ e) inv
after_commit-SnapshotInv last mode id now (committed m) s s' inv e =
    arm_compaction-SnapshotInv last mode id now s s' inv e
after_commit-SnapshotInv last mode id now (already_committed m) s s' inv e =
    arm_compaction-SnapshotInv last mode id now s s' inv e

pub commit_snapshot-SnapshotInv :
    (last : ℕ) (s : SnapshotStore) (mode : SnapshotAutomationMode) (now : ℕ) (m : SnapshotManifest)
    (r : SnapshotStore × CommitResult)
    → SnapshotInv last s
    → commit_snapshot mode now m s ≡ some r
    → SnapshotInv last r.0
unfolding commit_snapshot
commit_snapshot-SnapshotInv last s mode now m r inv e =
    let (q, settled, e1) = bind-some (commit_transaction m s) _ e in
    let (s', after, e2) = bind-some _ _ e1 in
    subst (λ t. SnapshotInv last t.0) (some_inj _ _ e2)
      (after_commit-SnapshotInv last mode m.job_id now q.1 q.0 s'
        (commit_transaction_lem last m s q inv settled).0 after)

pub run_compaction-SnapshotInv :
    (last : ℕ) (mode : SnapshotAutomationMode) (now : ℕ) (pending : Option String)
    (s s' : SnapshotStore)
    → SnapshotInv last s
    → run_compaction mode now pending s ≡ some s'
    → SnapshotInv last s'
run_compaction-SnapshotInv last mode now none s s' inv e =
    subst (SnapshotInv last) (some_inj _ _ e) inv
run_compaction-SnapshotInv last mode now (some id) s s' inv e =
    elim (Bool-cases (is_past now s.automation.compaction_due_at)) [
      | inr early ↦ subst (SnapshotInv last) (some_inj _ _ (rw early at e)) inv
      | inl due ↦ elim (Bool-cases (is_compact mode)) [
        | inr off ↦ subst (SnapshotInv last) (some_inj _ _ (rw (due, off) at e)) inv
        | inl compacts ↦
            let (r, run, e1) =
              bind-some (compact_snapshot_events id snapshot_event_chunk_limit s) _
                (rw (due, compacts) at e) in
            subst (SnapshotInv last) (some_inj _ _ e1)
              (compact_snapshot_events-SnapshotInv last snapshot_event_chunk_limit id s r inv run)
      ]
    ]

thumbnail_of_strokes :
    (last : ℕ) (id room_id : String) (now : ℕ) (s : SnapshotStore)
    (r : SnapshotStore × Option SnapshotJob)
    → SnapshotInv last s
    → (if ltb 0 (active_strokes s) || count (λ (t : Stroke). is_ended t.status) s.strokes == 0
        then some (set_thumbnail waiting_for_stroke s, none)
        else (create_snapshot_job id room_id manual true now s >>= λ (s', j, sent).
            some (s', some j)))
      ≡ some r
    → SnapshotInv last r.0
thumbnail_of_strokes last id room_id now s r inv e =
    elim (Bool-cases
      (ltb 0 (active_strokes s) || count (λ (t : Stroke). is_ended t.status) s.strokes == 0)) [
        | inl waits ↦ subst (λ t. SnapshotInv last t.0) (some_inj _ _ (rw waits at e)) inv
        | inr ready ↦
            let (q, made, e1) =
              bind-some (create_snapshot_job id room_id manual true now s) _ (rw ready at e) in
            subst (λ t. SnapshotInv last t.0) (some_inj _ _ e1)
              (create_snapshot_job-SnapshotInv last id room_id manual true now s q inv made)
      ]

due_thumbnail-SnapshotInv :
    (last : ℕ) (id room_id : String) (now : ℕ) (s : SnapshotStore)
    (r : SnapshotStore × Option SnapshotJob)
    → SnapshotInv last s
    → due_thumbnail id room_id now s ≡ some r
    → SnapshotInv last r.0
due_thumbnail-SnapshotInv last id room_id now s r inv e =
    let (opened, known, e1) = bind-some (is_open s) _ e in
    elim (Bool-cases opened) [
      | inr over ↦ subst (λ t. SnapshotInv last t.0) (some_inj _ _ (rw over at e1)) inv
      | inl opened_now ↦
          let (current, read, e2) = bind-some (current_snapshot s) _ (rw opened_now at e1) in
          elim (Bool-cases (has_events current)) [
            | inl full ↦ subst (λ t. SnapshotInv last t.0) (some_inj _ _ (rw full at e2)) inv
            | inr empty ↦ thumbnail_of_strokes last id room_id now s r inv (rw empty at e2)
          ]
    ]

thumbnail-SnapshotInv :
    (last : ℕ) (state : ThumbnailState) (id room_id : String) (now : ℕ) (s : SnapshotStore)
    (r : SnapshotStore × Option SnapshotJob)
    → SnapshotInv last s
    → thumbnail_in state id room_id now s ≡ some r
    → SnapshotInv last r.0
thumbnail-SnapshotInv last scheduled id room_id now s r inv e =
    elim (Bool-cases (is_later now s.automation.initial_thumbnail_due_at)) [
      | inl early ↦ subst (λ t. SnapshotInv last t.0) (some_inj _ _ (rw early at e)) inv
      | inr due ↦ due_thumbnail-SnapshotInv last id room_id now s r inv (rw due at e)
    ]
thumbnail-SnapshotInv last waiting_for_stroke id room_id now s r inv e =
    due_thumbnail-SnapshotInv last id room_id now s r inv e
thumbnail-SnapshotInv last uninitialized id room_id now s r inv e =
    subst (λ t. SnapshotInv last t.0) (some_inj _ _ e) inv
thumbnail-SnapshotInv last disabled id room_id now s r inv e =
    subst (λ t. SnapshotInv last t.0) (some_inj _ _ e) inv
thumbnail-SnapshotInv last queued id room_id now s r inv e =
    subst (λ t. SnapshotInv last t.0) (some_inj _ _ e) inv
thumbnail-SnapshotInv last satisfied id room_id now s r inv e =
    subst (λ t. SnapshotInv last t.0) (some_inj _ _ e) inv

act_on-SnapshotInv :
    (last : ℕ) (decision : Decision) (id room_id : String) (now : ℕ) (s : SnapshotStore)
    (r : SnapshotStore × Option SnapshotJob)
    → SnapshotInv last s
    → act_on decision id room_id now s ≡ some r
    → SnapshotInv last r.0
act_on-SnapshotInv last (Decision.trigger t) id room_id now s r inv e =
    let (q, made, e1) = bind-some (create_snapshot_job id room_id (kind_of t) false now s) _ e in
    subst (λ t. SnapshotInv last t.0) (some_inj _ _ e1)
      (create_snapshot_job-SnapshotInv last id room_id (kind_of t) false now s q inv made)
act_on-SnapshotInv last Decision.disabled id room_id now s r inv e =
    subst (λ t. SnapshotInv last t.0) (some_inj _ _ e) inv
act_on-SnapshotInv last _ id room_id now s r inv e =
    subst (λ t. SnapshotInv last t.0) (some_inj _ _ e) inv

pub reconcile-SnapshotInv :
    (last : ℕ) (s : SnapshotStore) (config : SnapshotAutomationConfig)
    (thumbnail_id id room_id : String) (now : ℕ) (r : SnapshotStore × Option SnapshotJob)
    → SnapshotInv last s
    → reconcile_snapshot_automation config thumbnail_id id room_id now s ≡ some r
    → SnapshotInv last r.0
unfolding reconcile_snapshot_automation reconcile_initial_thumbnail
reconcile-SnapshotInv last s config thumbnail_id id room_id now r inv e =
    let (s1, named, e1) = bind-some (ensure_room_identity room_id s) _ e in
    let (q, drawn, e2) = bind-some (reconcile_initial_thumbnail thumbnail_id room_id now s1) _ e1 in
    act_on-SnapshotInv last (decide_snapshot_automation config (automation_input q.0)).status id
      room_id now q.0 r
      (thumbnail-SnapshotInv last s1.automation.initial_thumbnail_state thumbnail_id room_id now s1
        q (ensure_room_identity-SnapshotInv last room_id s s1 inv named) drawn)
      e2
