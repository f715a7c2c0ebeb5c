-- ===== src/Room/Snapshots/Rounds.antt =====
-- apps/realtime/src/drawing-room.ts: `runPendingSnapshotCompaction` at each alarm that it asks for.
use echa.Prelude.{
  ℕ, zero, suc, ◌+◌, ◌*◌, ◌≤◌, ◌<◌, min, ◌≡◌, refl, ap, sym, ◌∙◌, inl, inr, String, true, false,
  Option, none, some, arith, leb, if◌then◌else◌, is_some, Bool-cases, bind_of, ◌>>=◌,
}
use echa.Snapshot.Automation.{SnapshotAutomationMode, compact}
use echa.Room.Snapshots.{
  SnapshotJob, SnapshotManifest, SnapshotStore, manifest_of, manifest_in,
  snapshot_event_chunk_limit,
}
use echa.Room.State.{room_lifecycle_state}
use echa.Room.Snapshots.Commit.{is_active_room, is_active_state}
use echa.Room.Snapshots.Compaction.{
  blocker_of, source_or, is_current, is_past, blocking_id, CompactionChunk, compacted, retry_at,
  id_if, set_pending, run_compaction, run_pending_snapshot_compaction,
}
use echa.Room.Snapshots.Invariant.{SnapshotInv}
use echa.Room.Snapshots.Compacts.{is_blocked, Chunked, compact_snapshot_events_lem}
use echa.Room.Snapshots.Deletion.{Fits-previous, Fits-older}

abbrev at_alarm : Option ℕ → SnapshotStore → (ℕ → Option SnapshotStore) → Option SnapshotStore
at_alarm none s run = some s
at_alarm (some due) s run = run due

-- As many alarms as the fuel says, each when it is due, until none is asked for.
unfoldable pub compaction_alarms : ℕ → SnapshotAutomationMode → SnapshotStore → Option SnapshotStore
compaction_alarms zero mode s = some s
compaction_alarms (suc n) mode s =
    at_alarm s.automation.compaction_due_at s
      (λ due. run_pending_snapshot_compaction mode due s >>= λ s'. compaction_alarms n mode s')

-- A compaction is asked for, of the current snapshot of an active room, down to the previous
-- snapshot `p`, and no queued job starts before that.
pub record IsPending (last : ℕ) (p : SnapshotManifest) (id : String) (s : SnapshotStore)
    : Type 0 where
  pub consistent : SnapshotInv last s
  pub active : is_active_room s ≡ some true
  pub pending : s.automation.pending_compaction_job_id ≡ some id
  pub is_due : (due : ℕ) × (s.automation.compaction_due_at ≡ some due)
  pub named : is_current id (manifest_of s.state.current_job_id s) ≡ true
  pub is_previous : manifest_of s.state.previous_job_id s ≡ some p
  pub positive : 0 < p.base_room_seq
  pub unblocked : is_blocked p.base_room_seq s ≡ false

-- The log is compacted down to the previous snapshot, and no alarm is asked for.
pub record IsFinished (last : ℕ) (p : SnapshotManifest) (s : SnapshotStore) : Type 0 where
  pub consistent : SnapshotInv last s
  pub through : s.state.compacted_through ≡ p.base_room_seq
  pub nothing_pending : s.automation.pending_compaction_job_id ≡ none
  pub no_alarm : s.automation.compaction_due_at ≡ none

one_alarm :
    (last : ℕ) (p : SnapshotManifest) (id : String) (s : SnapshotStore) (due : ℕ)
    → IsPending last p id s
    → s.automation.compaction_due_at ≡ some due
    → (r : SnapshotStore × CompactionChunk) × (run_pending_snapshot_compaction compact due s
        ≡ some (set_pending (id_if (retry_at due r.1) id) (retry_at due r.1) r.0))
      × Chunked last 500 p.base_room_seq s r
unfolding run_pending_snapshot_compaction
one_alarm last p id s due w at =
    let inv = w.consistent in
    let past : is_past due s.automation.compaction_due_at ≡ true =
      ap (is_past due) at ∙ (let now : leb due due ≡ true = ground arith in now) in
    let (r, run, d) =
      compact_snapshot_events_lem last snapshot_event_chunk_limit id s inv p w.active
        (ap (is_current id) (sym inv.is_current) ∙ w.named) (sym inv.is_previous ∙ w.is_previous)
        w.positive in
    (r, ap (λ o. run_compaction compact due o s) w.pending ∙ rw past (bind_of _ run), d)

not_blocked :
    (desired : ℕ) (o : Option SnapshotJob)
    → is_some (blocking_id desired o) ≡ false
    → desired ≤ source_or desired o
not_blocked desired none h = omega arith
not_blocked desired (some j) h = ground arith

idle_alarms :
    (n : ℕ) (mode : SnapshotAutomationMode) (s : SnapshotStore)
    → s.automation.compaction_due_at ≡ none
    → compaction_alarms n mode s ≡ some s
unfolding compaction_alarms
idle_alarms zero mode s h = refl
idle_alarms (suc n) mode s h =
    ap
      (λ o.
        at_alarm o s
          (λ due. run_pending_snapshot_compaction mode due s >>= λ s'. compaction_alarms n mode s'))
      h

alarm_step :
    (n due : ℕ) (mode : SnapshotAutomationMode) (s s' : SnapshotStore)
    → s.automation.compaction_due_at ≡ some due
    → run_pending_snapshot_compaction mode due s ≡ some s'
    → compaction_alarms (suc n) mode s ≡ compaction_alarms n mode s'
unfolding compaction_alarms
alarm_step n due mode s s' at run =
    ap
      (λ o.
        at_alarm o s
          (λ due. run_pending_snapshot_compaction mode due s >>= λ s'. compaction_alarms n mode s'))
      at
    ∙ bind_of _ run

retry_lem :
    (due : ℕ) (c : CompactionChunk)
    → c.status ≡ compacted
    → retry_at due c ≡ (if c.done then none else some (due + 100))
retry_lem due c h = rw h

module _ (last : ℕ) (p : SnapshotManifest) (id : String) (s : SnapshotStore) (due : ℕ)
    (w : IsPending last p id s) (r : SnapshotStore × CompactionChunk)
    (d : Chunked last 500 p.base_room_seq s r) where
  is_p : w.consistent.previous ≡ some p
  is_p = sym w.consistent.is_previous ∙ w.is_previous

  reach : r.0.state.compacted_through ≡ min (s.state.compacted_through + 500) p.base_room_seq
  reach =
      let (low, high) =
        Fits-previous s.state.compacted_through last p w.consistent.current
          (Fits-older last 500 s w.consistent p is_p) in
      let free = not_blocked p.base_room_seq (blocker_of s.jobs) w.unblocked in
      omega (arith, d.through)

  chunk_compacted : r.1.status ≡ compacted
  chunk_compacted = d.status ∙ rw w.unblocked refl

  same_row :
      (o o' : Option String) → o' ≡ o → manifest_in o' r.0.manifests ≡ manifest_in o s.manifests
  same_row o o' e = ap (λ q. manifest_in q r.0.manifests) e ∙ ap (manifest_in o) d.same_manifests

  still-IsPending : (later : ℕ) → IsPending last p id (set_pending (some id) (some later) r.0)
  still-IsPending later = record {
    consistent = d.consistent;
    active =
        ap (λ l. room_lifecycle_state l >>= λ state. some (is_active_state state)) d.same_lifecycle
        ∙ w.active;
    pending = refl;
    is_due = (later, refl);
    named =
        ap (is_current id) (same_row s.state.current_job_id r.0.state.current_job_id d.same_current)
        ∙ w.named;
    is_previous =
        same_row s.state.previous_job_id r.0.state.previous_job_id d.same_previous ∙ w.is_previous;
    positive = w.positive;
    unblocked =
        ap (λ js. is_some (blocking_id p.base_room_seq (blocker_of js))) d.same_jobs ∙ w.unblocked;
  }

  finished : r.1.done ≡ true → IsFinished last p (set_pending none none r.0)
  finished h = record {
    consistent = d.consistent;
    through =
        (let all : leb p.base_room_seq r.0.state.compacted_through ≡ true = sym d.finished ∙ h in
          ground (arith, reach));
    nothing_pending = refl;
    no_alarm = refl;
  }

-- A compaction that is asked for in a consistent active room, of its current snapshot, and that no
-- queued job blocks, ends: 500 events an alarm are enough to come down to the previous snapshot. No
-- alarm throws, and at the end none is asked for.
pub compaction_alarms-IsFinished :
    (n last : ℕ) (p : SnapshotManifest) (id : String) (s : SnapshotStore)
    → IsPending last p id s
    → 0 < n
    → p.base_room_seq ≤ s.state.compacted_through + 500 * n
    → (s' : SnapshotStore) × (compaction_alarms n compact s ≡ some s') × IsFinished last p s'
unfolding compaction_alarms
compaction_alarms-IsFinished zero last p id s w h k = absurd (omega arith)
compaction_alarms-IsFinished (suc n) last p id s w h k =
    let (due, at) = w.is_due in
    let (r, run, d) = one_alarm last p id s due w at in
    let retry = retry_lem due r.1 (chunk_compacted last p id s due w r d) in
    elim (Bool-cases r.1.done) [
      | inl done ↦
          let no_retry : retry_at due r.1 ≡ none = retry ∙ rw done refl in
          let ends : run_pending_snapshot_compaction compact due s
              ≡ some (set_pending none none r.0) =
            run ∙ ap (λ o. some (set_pending (id_if o id) o r.0)) no_retry in
          (
            set_pending none none r.0,
            alarm_step n due compact s _ at ends
                ∙ idle_alarms n compact (set_pending none none r.0) refl,
            finished last p id s due w r d done,
          )
      | inr more ↦
          let again : retry_at due r.1 ≡ some (due + 100) = retry ∙ rw more refl in
          let s1 = set_pending (some id) (some (due + 100)) r.0 in
          let goes_on : run_pending_snapshot_compaction compact due s ≡ some s1 =
            run ∙ ap (λ o. some (set_pending (id_if o id) o r.0)) again in
          let not_yet : leb p.base_room_seq r.0.state.compacted_through ≡ false =
            sym d.finished ∙ more in
          let reached = reach last p id s due w r d in
          let (s', rest, f) =
            compaction_alarms-IsFinished n last p id s1
              (still-IsPending last p id s due w r d (due + 100)) (ground arith) (ground arith) in
          (s', alarm_step n due compact s s1 at goes_on ∙ rest, f)
    ]
