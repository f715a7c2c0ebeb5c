-- ===== src/Room/Snapshots/Life.antt =====
-- apps/realtime/src/drawing-room.ts: the tables of snapshots over the life of a room.
use mathlib.Core.Path.{subst}
use echa.Prelude.{
  ℕ, suc, ◌≤◌, ◌≡◌, refl, sym, String, Bool, false, Option, none, some, [], ◌∷◌, ◌++◌, arith,
  update, All-update, All-imp, count-update_same,
}
use echa.Snapshot.Automation.{SnapshotAutomationMode, SnapshotAutomationConfig}
use echa.Room.Log.{StoredEvent}
use echa.Room.Store.{superseded_job}
use echa.Room.Snapshots.{
  SnapshotJob, SnapshotManifest, SnapshotStore, TriggerKind, is_queued_job, job_is,
}
use echa.Room.Snapshots.Jobs.{same_target, create_snapshot_job}
use echa.Room.Snapshots.Commit.{CommitResult, set_status}
use echa.Room.Snapshots.Compaction.{commit_snapshot, run_pending_snapshot_compaction}
use echa.Room.Snapshots.Automatic.{reconcile_snapshot_automation}
use echa.Room.Snapshots.Rows.{IsRun-append}
use echa.Room.Snapshots.Invariant.{Fits, JobFits, TablesInv, SnapshotInv}
use echa.Room.Snapshots.Requests.{create_snapshot_job-SnapshotInv}
use echa.Room.Snapshots.Insertion.{JobFits-set_status, MadeBy-update}
use echa.Room.Snapshots.Operations.{
  commit_snapshot-SnapshotInv, run_compaction-SnapshotInv, reconcile-SnapshotInv,
}

-- What happens to the tables: an event is accepted, something else changes, the room closes, a job
-- is asked for or comes of itself, the worker commits one, an alarm compacts the log.
pub data SnapshotStep : ℕ → SnapshotStore → ℕ → SnapshotStore → Type 0 where
  accept :
      (last : ℕ) (s : SnapshotStore) (e : StoredEvent)
      → e.room_seq ≡ suc last
      → SnapshotStep last s (suc last) (record s { events = s.events ++ e ∷ [] })
  elsewhere :
      (last : ℕ) (s s' : SnapshotStore)
      → s'.events ≡ s.events
      → s'.jobs ≡ s.jobs
      → s'.manifests ≡ s.manifests
      → s'.state ≡ s.state
      → SnapshotStep last s last s'
  close :
      (last : ℕ) (s : SnapshotStore)
      → SnapshotStep last s last
          (record s { jobs = update is_queued_job (set_status superseded_job) s.jobs })
  request :
      (last : ℕ) (s : SnapshotStore) (id room_id : String) (kind : TriggerKind) (now : ℕ)
      (r : SnapshotStore × SnapshotJob × Bool)
      → create_snapshot_job id room_id kind false now s ≡ some r
      → SnapshotStep last s last r.0
  reconcile :
      (last : ℕ) (s : SnapshotStore) (config : SnapshotAutomationConfig)
      (thumbnail_id id room_id : String) (now : ℕ) (r : SnapshotStore × Option SnapshotJob)
      → reconcile_snapshot_automation config thumbnail_id id room_id now s ≡ some r
      → SnapshotStep last s last r.0
  commit :
      (last : ℕ) (s : SnapshotStore) (mode : SnapshotAutomationMode) (now : ℕ)
      (m : SnapshotManifest) (r : SnapshotStore × CommitResult)
      → commit_snapshot mode now m s ≡ some r
      → SnapshotStep last s last r.0
  alarm :
      (last : ℕ) (s : SnapshotStore) (mode : SnapshotAutomationMode) (now : ℕ) (s' : SnapshotStore)
      → run_pending_snapshot_compaction mode now s ≡ some s'
      → SnapshotStep last s last s'

pub data SnapshotRun (from : ℕ) (s : SnapshotStore) : ℕ → SnapshotStore → Type 0 where
  here : SnapshotRun from s from s
  next :
      {last last' : ℕ} {t u : SnapshotStore}
      → SnapshotRun from s last t
      → SnapshotStep last t last' u
      → SnapshotRun from s last' u

Fits-later :
    (through last : ℕ) (p c : Option SnapshotManifest)
    → Fits through last p c
    → Fits through (suc last) p c
Fits-later through last none none f = f
Fits-later through last none (some c) f = (f.0, omega arith)
Fits-later through last (some p) none f = f
Fits-later through last (some p) (some c) f = (f.0, f.1, omega arith)

accept-SnapshotInv :
    (last : ℕ) (s : SnapshotStore) (e : StoredEvent)
    → e.room_seq ≡ suc last
    → SnapshotInv last s
    → SnapshotInv (suc last) (record s { events = s.events ++ e ∷ [] })
accept-SnapshotInv last s e h inv = record {
  current = inv.current;
  previous = inv.previous;
  run = IsRun-append s.state.compacted_through last (suc last) s.events (e ∷ []) inv.run (h, refl);
  each_job =
      All-imp (JobFits s.state.compacted_through last)
        (JobFits s.state.compacted_through (suc last)) s.jobs
        (λ j f. record {
          below = f.below;
          reached = omega (arith, f.reached);
          known = f.known;
          kept = f.kept;
        })
        inv.each_job;
  unique_id = inv.unique_id;
  unique_target = inv.unique_target;
  each_manifest = inv.each_manifest;
  is_current = inv.is_current;
  is_previous = inv.is_previous;
  has_current = inv.has_current;
  has_previous = inv.has_previous;
  fits = Fits-later s.state.compacted_through last inv.previous inv.current inv.fits;
  shadow = inv.shadow;
  made_by = inv.made_by;
}

close-SnapshotInv :
    (last : ℕ) (s : SnapshotStore)
    → SnapshotInv last s
    → SnapshotInv last (record s { jobs = update is_queued_job (set_status superseded_job) s.jobs })
close-SnapshotInv last s inv = record {
  current = inv.current;
  previous = inv.previous;
  run = inv.run;
  each_job =
      All-update (JobFits s.state.compacted_through last) is_queued_job (set_status superseded_job)
        s.jobs (JobFits-set_status superseded_job refl s.state.compacted_through last) inv.each_job;
  unique_id = λ i.
      subst (λ n. n ≤ 1)
        (sym (
          count-update_same (job_is i) is_queued_job (set_status superseded_job) s.jobs
            (λ x. refl)))
        (inv.unique_id i);
  unique_target = λ t.
      subst (λ n. n ≤ 1)
        (sym (
          count-update_same (same_target t) is_queued_job (set_status superseded_job) s.jobs
            (λ x. refl)))
        (inv.unique_target t);
  each_manifest = inv.each_manifest;
  is_current = inv.is_current;
  is_previous = inv.is_previous;
  has_current = inv.has_current;
  has_previous = inv.has_previous;
  fits = inv.fits;
  shadow = inv.shadow;
  made_by = MadeBy-update superseded_job refl is_queued_job s.jobs inv.current inv.made_by;
}

frame-SnapshotInv :
    (last : ℕ) (s s' : SnapshotStore)
    → s'.events ≡ s.events
    → s'.jobs ≡ s.jobs
    → s'.manifests ≡ s.manifests
    → s'.state ≡ s.state
    → SnapshotInv last s
    → SnapshotInv last s'
frame-SnapshotInv last s s' e j m t inv =
    subst (λ x. TablesInv last x s'.jobs s'.manifests s'.state) (sym e)
      (subst (λ x. TablesInv last s.events x s'.manifests s'.state) (sym j)
        (subst (λ x. TablesInv last s.events s.jobs x s'.state) (sym m)
          (subst (λ x. TablesInv last s.events s.jobs s.manifests x) (sym t) inv)))

Step-SnapshotInv :
    {last last' : ℕ} {s s' : SnapshotStore}
    → SnapshotStep last s last' s'
    → SnapshotInv last s
    → SnapshotInv last' s'
unfolding run_pending_snapshot_compaction
Step-SnapshotInv (accept last s e h) inv = accept-SnapshotInv last s e h inv
Step-SnapshotInv (elsewhere last s s' e j m t) inv = frame-SnapshotInv last s s' e j m t inv
Step-SnapshotInv (close last s) inv = close-SnapshotInv last s inv
Step-SnapshotInv (request last s id room_id kind now r e) inv =
    create_snapshot_job-SnapshotInv last id room_id kind false now s r inv e
Step-SnapshotInv (reconcile last s config thumbnail_id id room_id now r e) inv =
    reconcile-SnapshotInv last s config thumbnail_id id room_id now r inv e
Step-SnapshotInv (commit last s mode now m r e) inv =
    commit_snapshot-SnapshotInv last s mode now m r inv e
Step-SnapshotInv (alarm last s mode now s' e) inv =
    run_compaction-SnapshotInv last mode now s.automation.pending_compaction_job_id s s' inv e

-- Whatever happens to a room, from consistent tables of snapshots on, they stay consistent.
pub SnapshotRun-SnapshotInv :
    {from : ℕ} {s : SnapshotStore} {last : ℕ} {s' : SnapshotStore}
    → SnapshotInv from s
    → SnapshotRun from s last s'
    → SnapshotInv last s'
SnapshotRun-SnapshotInv inv here = inv
SnapshotRun-SnapshotInv inv (next run step) =
    Step-SnapshotInv step (SnapshotRun-SnapshotInv inv run)
