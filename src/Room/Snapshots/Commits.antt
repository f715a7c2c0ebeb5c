-- ===== src/Room/Snapshots/Commits.antt =====
-- apps/realtime/src/drawing-room.ts: `commitSnapshot` on consistent tables.
use mathlib.Core.Path.{subst}
use text.Mathlib.TextPositions.{eq_refl}
use echa.Prelude.{
  ℕ, ◌<◌, ◌≡◌, refl, ap, sym, ◌∙◌, inl, inr, Bool, true, false, ◌||◌, Option, none, some, arith,
  if◌then◌else◌, is_some, find?, Bool-cases, bind-some, passed, not_refused, guarded, some_inj,
  ◌>>=◌,
}
use echa.Room.Store.{superseded_job, is_queued}
use echa.Room.Snapshots.{
  SnapshotJob, SnapshotManifest, SnapshotStore, job_is, manifest_is, manifest_of, current_snapshot,
  read_snapshot_manifest,
}
use echa.Room.Snapshots.Commit.{
  CommitResult, committed, already_committed, superseded, validate_snapshot_manifest, matches_job,
  mark_job, insert_manifest, is_older, commit_over, commit_new, commit_again, commit_transaction,
  is_active_room, same_output, same_key,
}
use echa.Room.Snapshots.Invariant.{SnapshotInv, read_known}
use echa.Room.Snapshots.Insertion.{mark_job-SnapshotInv, other_base, insert_manifest-TablesInv}

-- What a commit comes to: a newer current snapshot with the one before it as the previous one, the
-- same store where the same output was committed before, or a job that is given up.
abbrev pub Settled : SnapshotManifest → SnapshotStore → SnapshotStore × CommitResult → Type 0
Settled m s (s', committed n) =
    (n ≡ m)
    × (manifest_of s'.state.current_job_id s' ≡ some m)
    × (s'.state.previous_job_id ≡ s.state.current_job_id)
    × ((c : SnapshotManifest)
        → manifest_of s.state.current_job_id s ≡ some c
        → c.base_room_seq < m.base_room_seq)
Settled m s (s', already_committed n) = (s' ≡ s) × (same_output n m ≡ true)
Settled m s (s', superseded) = s' ≡ mark_job m.job_id superseded_job s

abbrev pub Commits : ℕ → SnapshotManifest → SnapshotStore → SnapshotStore × CommitResult → Type 0
Commits last m s r = SnapshotInv last r.0 × Settled m s r

module _ (last : ℕ) (m : SnapshotManifest) (j : SnapshotJob) (s : SnapshotStore)
    (inv : SnapshotInv last s) (valid : validate_snapshot_manifest m ≡ true)
    (found : find? (job_is m.job_id) s.jobs ≡ some j) (matching : matches_job m j ≡ true)
    (new : find? (manifest_is m.job_id) s.manifests ≡ none) where
  given_up : Commits last m s (mark_job m.job_id superseded_job s, superseded)
  given_up = (mark_job-SnapshotInv superseded_job refl last m.job_id s inv, refl)

  newer_base :
      is_older m inv.current ≡ false
      → (c : SnapshotManifest) → manifest_of s.state.current_job_id s ≡ some c
      → c.base_room_seq < m.base_room_seq
  newer_base newest c e =
      let is_c : inv.current ≡ some c = sym inv.is_current ∙ e in
      let differs = other_base last m j s inv valid found matching new inv.current refl c is_c in
      let not_older : is_older m (some c) ≡ false = ap (is_older m) (sym is_c) ∙ newest in
      ground arith

  inserted :
      (s' : SnapshotStore)
      → is_older m inv.current ≡ false
      → insert_manifest m s ≡ some s'
      → Commits last m s (s', committed m)
  inserted s' newest e =
      let (fresh, stored) =
        not_refused
          (is_some (find? (manifest_is m.job_id) s.manifests)
            || is_some (find? (same_key m) s.manifests))
          _ e in
      subst (λ q. Commits last m s (q, committed m)) (some_inj _ _ stored)
        (
          insert_manifest-TablesInv last m j s inv valid found matching new newest,
          (refl, rw (eq_refl m.job_id) refl, refl, newer_base newest),
        )

  over-Commits :
      (current : Option SnapshotManifest) (r : SnapshotStore × CommitResult)
      → inv.current ≡ current
      → commit_over m current s ≡ some r
      → Commits last m s r
  over-Commits current r is_current e = elim (Bool-cases (is_older m current)) [
    | inl older ↦ subst (Commits last m s) (some_inj _ _ (rw older at e)) given_up
    | inr newest ↦
        let (s', stored, e1) = bind-some (insert_manifest m s) _ (rw newest at e) in
        subst (Commits last m s) (some_inj _ _ e1)
          (inserted s' (ap (is_older m) is_current ∙ newest) stored)
  ]

  commit_new-Commits :
      (r : SnapshotStore × CommitResult) → commit_new m j s ≡ some r → Commits last m s r
  commit_new-Commits r e = elim (Bool-cases (is_queued j.status)) [
    | inl waits ↦
        let (is_active, known, e1) = bind-some (is_active_room s) _ (rw waits at e) in
        in_room is_active e1
    | inr over ↦ subst (Commits last m s) (some_inj _ _ (rw over at e)) given_up
  ]
    where
      in_room :
          (b : Bool)
          → (if b
              then (current_snapshot s >>= λ current. commit_over m current s)
              else some (mark_job m.job_id superseded_job s, superseded))
            ≡ some r
          → Commits last m s r
      in_room false h = subst (Commits last m s) (some_inj _ _ h) given_up
      in_room true h =
          let (current, read, h1) = bind-some (current_snapshot s) _ h in
          over-Commits current r
            (sym inv.is_current
              ∙ some_inj _ _
                  (sym (read_known s.state.current_job_id s.manifests inv.each_manifest) ∙ read))
            h1

-- A commit on consistent tables that does not throw leaves them consistent. Its manifest becomes the
-- current snapshot, newer than the one before, that becomes the previous one; or it was there and
-- nothing changes; or its job alone is superseded.
pub commit_transaction_lem :
    (last : ℕ) (m : SnapshotManifest) (s : SnapshotStore) (r : SnapshotStore × CommitResult)
    → SnapshotInv last s
    → commit_transaction m s ≡ some r
    → Commits last m s r
unfolding commit_transaction
commit_transaction_lem last m s r inv e =
    let (valid, e1) = guarded (validate_snapshot_manifest m) _ e in
    let (j, found, e2) = bind-some (find? (job_is m.job_id) s.jobs) _ e1 in
    let (matching, e3) = guarded (matches_job m j) _ e2 in
    let (before, read, e4) = bind-some (read_snapshot_manifest m.job_id s) _ e3 in
    let row =
      some_inj _ _ (sym (read_known (some m.job_id) s.manifests inv.each_manifest) ∙ read) in
    again j found matching before row e4 valid
  where
    again :
        (j : SnapshotJob)
        → find? (job_is m.job_id) s.jobs ≡ some j
        → matches_job m j ≡ true
        → (before : Option SnapshotManifest) → find? (manifest_is m.job_id) s.manifests ≡ before
        → commit_again m j before s ≡ some r
        → validate_snapshot_manifest m ≡ true
        → Commits last m s r
    again j found matching none row h valid =
        commit_new-Commits last m j s inv valid found matching row r h
    again j found matching (some c) row h valid =
        let (same_as, h1) = passed (same_output c m) _ h in
        subst (Commits last m s) (some_inj _ _ h1) (inv, (refl, same_as))
