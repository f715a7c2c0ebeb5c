-- ===== src/Room/Snapshots/Committed.antt =====
-- apps/realtime/src/drawing-room.ts: when the transaction of `commitSnapshot` throws.
use echa.Prelude.{
  ℕ, ◌≡◌, refl, ap, sym, ◌∙◌, inl, inr, ◌⊎◌, Bool, true, false, Option, none, some, if◌then◌else◌,
  find?, Bool-cases, Option-cases, bind_of, ◌>>=◌,
}
use echa.Room.Store.{superseded_job, is_queued}
use echa.Room.Snapshots.{
  SnapshotJob, SnapshotManifest, SnapshotStore, job_is, manifest_is, current_snapshot,
}
use echa.Room.Snapshots.Commit.{
  CommitResult, superseded, mark_job, validate_snapshot_manifest, matches_job, is_older,
  commit_over, commit_new, commit_again, commit_transaction, is_active_room, same_output, same_key,
}
use echa.Room.Snapshots.Invariant.{SnapshotInv, read_known}
use echa.Room.Snapshots.Commits.{Commits, commit_transaction_lem}

-- The job has another output already, or the object's key is taken.
abbrev pub Conflicts : SnapshotManifest → SnapshotStore → Type 0
Conflicts m s =
    ((c : SnapshotManifest) × (find? (manifest_is m.job_id) s.manifests ≡ some c)
      × (same_output c m ≡ false))
    ⊎ ((c : SnapshotManifest) × (find? (same_key m) s.manifests ≡ some c))

module _ (last : ℕ) (m : SnapshotManifest) (j : SnapshotJob) (s : SnapshotStore)
    (inv : SnapshotInv last s) where
  over_conflict :
      find? (manifest_is m.job_id) s.manifests ≡ none
      → commit_over m inv.current s ≡ none
      → Conflicts m s
  over_conflict new e = elim (Bool-cases (is_older m inv.current)) [
    | inl older ↦ absurd (let z : ⊥ = cc (rw older at e) in z)
    | inr newest ↦ elim (Option-cases (find? (same_key m) s.manifests)) [
      | inr taken ↦ inr taken
      | inl free ↦ absurd (let z : ⊥ = cc (rw (newest, new, free) at e) in z)
    ]
  ]

  new_conflict :
      (is_active : Bool)
      → is_active_room s ≡ some is_active
      → find? (manifest_is m.job_id) s.manifests ≡ none
      → commit_new m j s ≡ none
      → Conflicts m s
  new_conflict is_active known new e = elim (Bool-cases (is_queued j.status)) [
    | inr over ↦ absurd (let z : ⊥ = cc (rw over at e) in z)
    | inl waits ↦ by_state is_active known (rw waits at e)
  ]
    where
      is_current : current_snapshot s ≡ some inv.current
      is_current =
          read_known s.state.current_job_id s.manifests inv.each_manifest ∙ ap some inv.is_current

      by_state :
          (b : Bool)
          → is_active_room s ≡ some b
          → (is_active_room s >>= λ b.
              if b
              then (current_snapshot s >>= λ current. commit_over m current s)
              else some (mark_job m.job_id superseded_job s, superseded))
            ≡ none
          → Conflicts m s
      by_state false k h = absurd (let z : ⊥ = cc (sym (bind_of _ k) ∙ h) in z)
      by_state true k h = over_conflict new (sym (bind_of _ is_current) ∙ sym (bind_of _ k) ∙ h)

  again_conflict :
      (is_active : Bool)
      → is_active_room s ≡ some is_active
      → (before : Option SnapshotManifest) → find? (manifest_is m.job_id) s.manifests ≡ before
      → commit_again m j before s ≡ none
      → Conflicts m s
  again_conflict is_active known none row e = new_conflict is_active known row e
  again_conflict is_active known (some c) row e = elim (Bool-cases (same_output c m)) [
    | inl same_as ↦ absurd (let z : ⊥ = cc (rw same_as at e) in z)
    | inr differs ↦ inl (c, row, differs)
  ]

  conflict :
      (is_active : Bool)
      → is_active_room s ≡ some is_active
      → validate_snapshot_manifest m ≡ true
      → find? (job_is m.job_id) s.jobs ≡ some j
      → matches_job m j ≡ true
      → commit_transaction m s ≡ none
      → Conflicts m s
  unfolding commit_transaction
  conflict is_active known valid found matching e =
      let read = read_known (some m.job_id) s.manifests inv.each_manifest in
      let rest = rw (valid, found, matching) at e in
      again_conflict is_active known (find? (manifest_is m.job_id) s.manifests) refl
        (sym (bind_of _ read) ∙ rest)

-- On consistent tables, with a valid manifest, its job, which it matches, and a status of the
-- room that can be read, the transaction of commitSnapshot throws only where the job has another
-- output already or the object's key is taken. Else it comes to one of three ends, each of which
-- keeps the tables consistent: the manifest becomes the current snapshot, newer than the one
-- before, which becomes the previous one, or it was there with the same output and nothing
-- changes, or its job alone is superseded.
pub commit_transaction_total :
    (last : ℕ) (m : SnapshotManifest) (j : SnapshotJob) (s : SnapshotStore) (is_active : Bool)
    → SnapshotInv last s
    → is_active_room s ≡ some is_active
    → validate_snapshot_manifest m ≡ true
    → find? (job_is m.job_id) s.jobs ≡ some j
    → matches_job m j ≡ true
    → ((r : SnapshotStore × CommitResult) × (commit_transaction m s ≡ some r) × Commits last m s r)
      ⊎ ((commit_transaction m s ≡ none) × Conflicts m s)
commit_transaction_total last m j s is_active inv known valid found matching =
    elim (Option-cases (commit_transaction m s)) [
      | inl e ↦ inr (e, conflict last m j s inv is_active known valid found matching e)
      | inr (r, e) ↦ inl (r, e, commit_transaction_lem last m s r inv e)
    ]
