-- ===== src/Room/Snapshots/Invariant.antt =====
-- apps/realtime/src/drawing-room.ts: what the tables of snapshots keep to.
use mathlib.Core.Path.{subst}
use echa.Prelude.{
  ℕ, ◌≤◌, ◌<◌, ◌≡◌, refl, sym, ◌⊎◌, inl, inr, String, Bool, true, false, Option, none, some, List,
  [], ◌∷◌, arith, ◌==◌, eq_iff, find?, count, All, Bool-cases,
}
use echa.Room.Log.{StoredEvent}
use echa.Room.Snapshots.{
  SnapshotJob, SnapshotManifest, SnapshotState, SnapshotStore, job_is, manifest_is, is_queued_job,
  manifest_in, manifest_from_row, supported_job, supported_manifest, last_room_seq,
}
use echa.Room.Snapshots.Jobs.{same_target, incremental_source, source_base, insert_job}
use echa.Room.Snapshots.Compaction.{is_missing}
use echa.Room.Snapshots.Rows.{IsRun, max_of_run}

-- The log is compacted at most to the previous snapshot, which is older than the current one.
abbrev pub Fits : ℕ → ℕ → Option SnapshotManifest → Option SnapshotManifest → Type 0
Fits through last none none = through ≡ 0
Fits through last none (some c) = (through ≡ 0) × (c.base_room_seq ≤ last)
Fits through last (some p) none = ⊥
Fits through last (some p) (some c) =
    (through ≤ p.base_room_seq) × (p.base_room_seq < c.base_room_seq) × (c.base_room_seq ≤ last)

-- A queued job starts where the log is still whole.
pub record JobFits (through last : ℕ) (j : SnapshotJob) : Type 0 where
  pub below : j.source_base_room_seq ≤ j.target_room_seq
  pub reached : j.target_room_seq ≤ last
  pub known : supported_job j ≡ true
  pub kept : is_queued_job j ≡ true → through ≤ j.source_base_room_seq

-- The job of the current snapshot.
abbrev pub MadeBy : List SnapshotJob → Option SnapshotManifest → Type 0
MadeBy js none = Unit
MadeBy js (some m) =
    (j : SnapshotJob) × (find? (job_is m.job_id) js ≡ some j)
    × (same_target m.base_room_seq j ≡ true)

pub record TablesInv (last : ℕ) (events : List StoredEvent) (jobs : List SnapshotJob)
    (manifests : List SnapshotManifest) (state : SnapshotState) : Type 0 where
  pub current : Option SnapshotManifest
  pub previous : Option SnapshotManifest
  pub run : IsRun state.compacted_through events last
  pub each_job : All (JobFits state.compacted_through last) jobs
  pub unique_id : (id : String) → count (job_is id) jobs ≤ 1
  pub unique_target : (t : ℕ) → count (same_target t) jobs ≤ 1
  pub each_manifest : All (λ m. supported_manifest m ≡ true) manifests
  pub is_current : manifest_in state.current_job_id manifests ≡ current
  pub is_previous : manifest_in state.previous_job_id manifests ≡ previous
  pub has_current : is_missing state.current_job_id current ≡ false
  pub has_previous : is_missing state.previous_job_id previous ≡ false
  pub fits : Fits state.compacted_through last previous current
  pub shadow : state.is_compacted ≡ false → state.compacted_through ≡ 0
  pub made_by : MadeBy jobs current

-- The tables of a room whose last number is `last`.
abbrev pub SnapshotInv : ℕ → SnapshotStore → Type 0
SnapshotInv last s = TablesInv last s.events s.jobs s.manifests s.state

pub Fits-low :
    (through last : ℕ) (p c : Option SnapshotManifest)
    → Fits through last p c
    → (through ≡ 0) ⊎ (through < last)
Fits-low through last none none f = inl f
Fits-low through last none (some c) f = inl f.0
Fits-low through last (some p) none f = absurd f
Fits-low through last (some p) (some c) f = inr (omega arith)

pub last_room_seq-SnapshotInv :
    (last : ℕ) (s : SnapshotStore) → SnapshotInv last s → last_room_seq s ≡ last
last_room_seq-SnapshotInv last s inv =
    max_of_run s.state.compacted_through last s.events inv.run
      (Fits-low _ last inv.previous inv.current inv.fits)

-- A new row with a new key.
pub count-cons_new :
    (p : SnapshotJob → Bool) (j : SnapshotJob) (js : List SnapshotJob)
    → (p j ≡ true → count p js ≡ 0)
    → count p js ≤ 1
    → count p (j ∷ js) ≤ 1
count-cons_new p j js new old = elim (Bool-cases (p j)) [
  | inl e ↦ let none_there = new e in rw e (omega arith)
  | inr e ↦ rw e old
]

job_is-same : (id : String) (j : SnapshotJob) → job_is id j ≡ true → j.job_id ≡ id
job_is-same id j h = (eq_iff j.job_id id).0 h

pub MadeBy-cons :
    (j : SnapshotJob) (js : List SnapshotJob) (m : Option SnapshotManifest)
    → find? (job_is j.job_id) js ≡ none
    → MadeBy js m
    → MadeBy (j ∷ js) m
MadeBy-cons j js none new h = tt
MadeBy-cons j js (some m) new h = elim (Bool-cases (job_is m.job_id j)) [
  | inl e ↦
      let same_id = job_is-same m.job_id j e in
      let again : find? (job_is m.job_id) js ≡ none =
        subst (λ i. find? (job_is i) js ≡ none) same_id new in
      absurd (let z : ⊥ = cc (again, h.1) in z)
  | inr e ↦ (h.0, rw e h.1, h.2)
]

pub Fits-base :
    (through last : ℕ) (p : Option SnapshotManifest) (c : SnapshotManifest)
    → Fits through last p (some c)
    → (through ≤ c.base_room_seq) × (c.base_room_seq ≤ last)
Fits-base through last none c f = (omega (arith, f.0), f.1)
Fits-base through last (some p) c f = (omega arith, f.2)

pub count_of_found :
    (p q : SnapshotJob → Bool) (js : List SnapshotJob) (a : SnapshotJob)
    → find? q js ≡ some a
    → p a ≡ true
    → 1 ≤ count p js
count_of_found p q [] a h k = absurd (let z : ⊥ = cc in z)
count_of_found p q (j ∷ js) a h k = ground (arith, count_of_found p q js a)

incremental_source-some :
    (room_id : String) (last : ℕ) (c : SnapshotManifest) (source : Option SnapshotManifest)
    → incremental_source room_id last (some c) ≡ some source
    → (c.base_room_seq ≡ last) ⊎ (source ≡ some c)
incremental_source-some room_id last c source e = elim (Bool-cases (c.base_room_seq == last)) [
  | inl same_base ↦ inl (ground arith)
  | inr other ↦ inr (ground arith)
]

-- With no job for the last number, the current snapshot is older, and the new job starts from it.
pub source_kept :
    (through last : ℕ) (room_id : String) (js : List SnapshotJob)
    (p c source : Option SnapshotManifest)
    → Fits through last p c
    → MadeBy js c
    → count (same_target last) js ≡ 0
    → incremental_source room_id last c ≡ some source
    → (through ≤ source_base source) × (source_base source ≤ last)
source_kept through last room_id js none none source f h k e = ground arith
source_kept through last room_id js (some p) none source f h k e = absurd f
source_kept through last room_id js p (some c) source f h k e =
    elim (incremental_source-some room_id last c source e) [
      | inl at_last ↦
          let its_job =
            count_of_found (same_target c.base_room_seq) (job_is c.job_id) js h.0 h.1 h.2 in
          absurd (
            let z : ⊥ =
              omega (arith, k, subst (λ t. 1 ≤ count (same_target t) js) at_last its_job) in
            z)
      | inr is_c ↦
          subst (λ o. (through ≤ source_base o) × (source_base o ≤ last)) (sym is_c)
            (Fits-base through last p c f)
    ]

-- The manifests that are stored are read without an exception.
pub read_known :
    (id : Option String) (ms : List SnapshotManifest)
    → All (λ m. supported_manifest m ≡ true) ms
    → manifest_from_row (manifest_in id ms) ≡ some (manifest_in id ms)
read_known none ms h = refl
read_known (some id) [] h = refl
read_known (some id) (m ∷ ms) h = elim (Bool-cases (manifest_is id m)) [
  | inl e ↦ rw (e, h.0) refl
  | inr e ↦ rw e (read_known (some id) ms h.1)
]

pub insert_fresh :
    (j : SnapshotJob) (s : SnapshotStore)
    → find? (job_is j.job_id) s.jobs ≡ none
    → insert_job j s ≡ some (record s { jobs = j ∷ s.jobs })
insert_fresh j s h = rw h

pub insert_taken :
    (j : SnapshotJob) (s : SnapshotStore) {k : SnapshotJob}
    → find? (job_is j.job_id) s.jobs ≡ some k
    → insert_job j s ≡ none
insert_taken j s h = rw h
