-- ===== src/Room/Snapshots/Requests.antt =====
-- apps/realtime/src/drawing-room.ts: `createSnapshotJob` on consistent tables.
use mathlib.Core.Path.{subst}
use echa.Prelude.{
  ℕ, ◌≡◌, refl, ap, sym, ◌∙◌, inl, inr, String, Bool, true, false, Option, none, some, ◌∷◌, arith,
  ◌==◌, same, eq_iff, find?, count, Bool-cases, Option-cases, bind-some, passed, guarded, some_inj,
  count_of_find?-none,
}
use echa.Room.Snapshots.{
  SnapshotJob, SnapshotManifest, SnapshotStore, TriggerKind, job_is, manifest_of, supported_job,
  last_room_seq, active_strokes, ensure_room_identity, identified_as, is_open,
}
use echa.Room.Snapshots.Jobs.{
  same_target, incremental_source, new_job, insert_job, reserve_initial_thumbnail_job, reserved,
  reuse_job, create_new, create_or_reuse, create_snapshot_job, awaits_thumbnail,
}
use echa.Room.Store.{is_queued}
use echa.Room.Snapshots.Invariant.{
  TablesInv, SnapshotInv, last_room_seq-SnapshotInv, count-cons_new, MadeBy-cons, source_kept,
  read_known, insert_fresh, insert_taken,
}

module _ (last : ℕ) (id room_id : String) (kind : TriggerKind) (now : ℕ) (s : SnapshotStore)
    (inv : SnapshotInv last s) (new : find? (same_target last) s.jobs ≡ none) where
  cons_job :
      (source : Option SnapshotManifest)
      → incremental_source room_id last (manifest_of s.state.current_job_id s) ≡ some source
      → find? (job_is id) s.jobs ≡ none
      → TablesInv last s.events (new_job id room_id kind now source s ∷ s.jobs) s.manifests s.state
  cons_job source from fresh =
      let at_last = last_room_seq-SnapshotInv last s inv in
      let none_at_last = count_of_find?-none (same_target last) s.jobs new in
      let kept =
        source_kept s.state.compacted_through last room_id s.jobs inv.previous inv.current source
          inv.fits inv.made_by none_at_last
          (ap (incremental_source room_id last) (sym inv.is_current) ∙ from) in
      let j = new_job id room_id kind now source s in
      record {
        current = inv.current;
        previous = inv.previous;
        run = inv.run;
        each_job = (
          record {
            below = omega (arith, at_last, kept.1);
            reached = omega (arith, at_last);
            known = refl;
            kept = λ queued. kept.0;
          },
          inv.each_job,
        );
        unique_id = λ other.
            count-cons_new (job_is other) j s.jobs
              (λ same_id.
                count_of_find?-none (job_is other) s.jobs
                  (subst (λ i. find? (job_is i) s.jobs ≡ none) ((eq_iff id other).0 same_id) fresh))
              (inv.unique_id other);
        unique_target = λ t.
            count-cons_new (same_target t) j s.jobs
              (λ same_t.
                subst (λ u. count (same_target u) s.jobs ≡ 0)
                  (let is_t : last ≡ t = ground (arith, at_last) in is_t) none_at_last)
              (inv.unique_target t);
        each_manifest = inv.each_manifest;
        is_current = inv.is_current;
        is_previous = inv.is_previous;
        has_current = inv.has_current;
        has_previous = inv.has_previous;
        fits = inv.fits;
        shadow = inv.shadow;
        made_by = MadeBy-cons j s.jobs inv.current fresh inv.made_by;
      }

  insert_job-SnapshotInv :
      (s' : SnapshotStore) (source : Option SnapshotManifest)
      → incremental_source room_id last (manifest_of s.state.current_job_id s) ≡ some source
      → insert_job (new_job id room_id kind now source s) s ≡ some s'
      → SnapshotInv last s'
  insert_job-SnapshotInv s' source from e = elim (Option-cases (find? (job_is id) s.jobs)) [
    | inl fresh ↦
        let j = new_job id room_id kind now source s in
        let is_s' : record s { jobs = j ∷ s.jobs } ≡ s' =
          some_inj _ _ (sym (insert_fresh j s fresh) ∙ e) in
        subst (SnapshotInv last) is_s' (cons_job source from fresh)
    | inr (j, found) ↦ absurd (
        let z : ⊥ = cc (sym (insert_taken (new_job id room_id kind now source s) s found) ∙ e) in z)
  ]

reserved-SnapshotInv :
    (last : ℕ) (reserve : Bool) (id : String) (s : SnapshotStore)
    → SnapshotInv last s
    → SnapshotInv last (reserved reserve id s)
unfolding reserve_initial_thumbnail_job
reserved-SnapshotInv last false id s inv = inv
reserved-SnapshotInv last true id s inv =
    elim (Bool-cases (awaits_thumbnail s.automation.initial_thumbnail_state)) [
      | inl e ↦ rw e inv
      | inr e ↦ rw e inv
    ]

reuse_job-SnapshotInv :
    (last : ℕ) (reserve : Bool) (room_id : String) (j : SnapshotJob) (s : SnapshotStore)
    (r : SnapshotStore × SnapshotJob × Bool)
    → SnapshotInv last s
    → reuse_job reserve room_id j s ≡ some r
    → SnapshotInv last r.0
reuse_job-SnapshotInv last reserve room_id j s r inv e =
    let (known_room, e1) = passed (same j.room_id room_id) _ e in
    let (known, e2) = passed (supported_job j) _ e1 in
    subst (λ q. SnapshotInv last q.0) (some_inj _ _ e2)
      (elim (Bool-cases (is_queued j.status)) [
        | inl q ↦ rw q (reserved-SnapshotInv last reserve j.job_id s inv)
        | inr q ↦ rw q inv
      ])

create_new-SnapshotInv :
    (last : ℕ) (id room_id : String) (kind : TriggerKind) (reserve : Bool) (now : ℕ)
    (s : SnapshotStore) (r : SnapshotStore × SnapshotJob × Bool)
    → SnapshotInv last s
    → find? (same_target last) s.jobs ≡ none
    → create_new id room_id kind reserve now s ≡ some r
    → SnapshotInv last r.0
create_new-SnapshotInv last id room_id kind reserve now s r inv new e =
    let (current, read, e1) = bind-some _ _ e in
    let (source, from, e2) = bind-some _ _ e1 in
    let (s', inserted, e3) = bind-some _ _ e2 in
    let is_current : manifest_of s.state.current_job_id s ≡ current =
      some_inj _ _ (sym (read_known s.state.current_job_id s.manifests inv.each_manifest) ∙ read) in
    let from' : incremental_source room_id last (manifest_of s.state.current_job_id s)
        ≡ some source =
      ap (incremental_source room_id last) is_current
      ∙ ap (λ n. incremental_source room_id n current) (sym (last_room_seq-SnapshotInv last s inv))
      ∙ from in
    subst (λ q. SnapshotInv last q.0) (some_inj _ _ e3)
      (reserved-SnapshotInv last reserve id s'
        (insert_job-SnapshotInv last id room_id kind now s inv new s' source from' inserted))

create_or_reuse-SnapshotInv :
    (last : ℕ) (id room_id : String) (kind : TriggerKind) (reserve : Bool) (now : ℕ)
    (o : Option SnapshotJob) (s : SnapshotStore) (r : SnapshotStore × SnapshotJob × Bool)
    → SnapshotInv last s
    → find? (same_target last) s.jobs ≡ o
    → create_or_reuse id room_id kind reserve now o s ≡ some r
    → SnapshotInv last r.0
create_or_reuse-SnapshotInv last id room_id kind reserve now none s r inv new e =
    create_new-SnapshotInv last id room_id kind reserve now s r inv new e
create_or_reuse-SnapshotInv last id room_id kind reserve now (some j) s r inv found e =
    reuse_job-SnapshotInv last reserve room_id j s r inv e

pub ensure_room_identity-SnapshotInv :
    (last : ℕ) (room_id : String) (s s' : SnapshotStore)
    → SnapshotInv last s
    → ensure_room_identity room_id s ≡ some s'
    → SnapshotInv last s'
unfolding ensure_room_identity
ensure_room_identity-SnapshotInv last room_id s s' inv e = identified s.identity e
  where
    identified : (o : Option String) → identified_as room_id o s ≡ some s' → SnapshotInv last s'
    identified none h = subst (SnapshotInv last) (some_inj _ _ h) inv
    identified (some id) h =
        subst (SnapshotInv last) (some_inj _ _ (passed (same id room_id) (some s) h).1) inv

-- A new job, or one that is there, leaves the tables consistent.
pub create_snapshot_job-SnapshotInv :
    (last : ℕ) (id room_id : String) (kind : TriggerKind) (reserve : Bool) (now : ℕ)
    (s : SnapshotStore) (r : SnapshotStore × SnapshotJob × Bool)
    → SnapshotInv last s
    → create_snapshot_job id room_id kind reserve now s ≡ some r
    → SnapshotInv last r.0
unfolding create_snapshot_job
create_snapshot_job-SnapshotInv last id room_id kind reserve now s r inv e =
    let (s', named, e1) = bind-some _ _ e in
    let inv' = ensure_room_identity-SnapshotInv last room_id s s' inv named in
    let (opened, is_opened, e2) = bind-some (is_open s') _ e1 in
    let (open_now, e3) = guarded opened _ e2 in
    let (no_strokes, e4) = guarded (active_strokes s' == 0) _ e3 in
    create_or_reuse-SnapshotInv last id room_id kind reserve now
      (find? (same_target (last_room_seq s')) s'.jobs) s' r inv'
      (ap (λ n. find? (same_target n) s'.jobs) (sym (last_room_seq-SnapshotInv last s' inv'))) e4
