-- ===== src/Room/Snapshots/Insertion.antt =====
-- apps/realtime/src/drawing-room.ts: `commitSnapshot` where it inserts a manifest.
use mathlib.Core.Path.{subst}
use text.Mathlib.TextPositions.{eq_refl}
use echa.Prelude.{
  ℕ, ◌≤◌, ◌≡◌, ◌≢◌, refl, ap, sym, ◌∙◌, inl, inr, String, Bool, true, false, Option, none, some,
  List, [], ◌∷◌, arith, eq_iff, find?, count, update, All-update, All-find, Bool-cases,
  count-update_same, find?-update_self, find?-holds,
}
use echa.Room.Store.{JobStatus, committed_job, is_queued}
use echa.Room.Snapshots.{
  SnapshotJob, SnapshotManifest, SnapshotStore, job_is, manifest_is, manifest_in,
  supported_manifest,
}
use echa.Room.Snapshots.Jobs.{same_target}
use echa.Room.Snapshots.Commit.{
  validate_snapshot_manifest, matches_job, set_status, mark_job, is_older,
}
use echa.Room.Snapshots.Compaction.{is_missing}
use echa.Room.Snapshots.Invariant.{
  Fits, Fits-base, JobFits, MadeBy, TablesInv, SnapshotInv, count_of_found,
}

module _ (st : JobStatus) (final : is_queued st ≡ false) where
  pub JobFits-set_status :
      (through last : ℕ) (j : SnapshotJob)
      → JobFits through last j
      → JobFits through last (set_status st j)
  JobFits-set_status through last j f = record {
    below = f.below;
    reached = f.reached;
    known = f.known;
    kept = λ queued. absurd (let z : ⊥ = cc (sym final ∙ queued) in z);
  }

  pub MadeBy-update :
      (p : SnapshotJob → Bool) (js : List SnapshotJob) (m : Option SnapshotManifest)
      → MadeBy js m
      → MadeBy (update p (set_status st) js) m
  MadeBy-update p js none h = tt
  MadeBy-update p [] (some m) h = absurd (let z : ⊥ = cc (h.1) in z)
  MadeBy-update p (j ∷ js) (some m) h = elim (Bool-cases (job_is m.job_id j)) [
    | inl here ↦
        let is_j : j ≡ h.0 = ground (arith, h.1) in
        let its_target : same_target m.base_room_seq j ≡ true =
          ap (same_target m.base_room_seq) is_j ∙ h.2 in
        elim (Bool-cases (p j)) [
          | inl u ↦ rw (u, here) (set_status st j, refl, its_target)
          | inr u ↦ rw (u, here) (j, refl, its_target)
        ]
    | inr other ↦
        let rest = MadeBy-update p js (some m) (h.0, ground (arith, h.1), h.2) in
        elim (Bool-cases (p j)) [ inl u ↦ rw (u, other) rest | inr u ↦ rw (u, other) rest ]
  ]

  pub mark_job-SnapshotInv :
      (last : ℕ) (id : String) (s : SnapshotStore)
      → SnapshotInv last s
      → SnapshotInv last (mark_job id st s)
  mark_job-SnapshotInv last id s inv = record {
    current = inv.current;
    previous = inv.previous;
    run = inv.run;
    each_job =
        All-update (JobFits s.state.compacted_through last) (job_is id) (set_status st) s.jobs
          (JobFits-set_status s.state.compacted_through last) inv.each_job;
    unique_id = λ i.
        subst (λ n. n ≤ 1)
          (sym (count-update_same (job_is i) (job_is id) (set_status st) s.jobs (λ x. refl)))
          (inv.unique_id i);
    unique_target = λ t.
        subst (λ n. n ≤ 1)
          (sym (count-update_same (same_target t) (job_is id) (set_status st) s.jobs (λ x. refl)))
          (inv.unique_target t);
    each_manifest = inv.each_manifest;
    is_current = inv.is_current;
    is_previous = inv.is_previous;
    has_current = inv.has_current;
    has_previous = inv.has_previous;
    fits = inv.fits;
    shadow = inv.shadow;
    made_by = MadeBy-update (job_is id) s.jobs inv.current inv.made_by;
  }

unique_rows :
    (p q r : SnapshotJob → Bool) (js : List SnapshotJob) (a b : SnapshotJob)
    → count p js ≤ 1
    → find? q js ≡ some a
    → p a ≡ true
    → find? r js ≡ some b
    → p b ≡ true
    → a ≡ b
unique_rows p q r [] a b one f k g l = absurd (let z : ⊥ = cc in z)
unique_rows p q r (j ∷ js) a b one f k g l =
    ground (arith, count_of_found p q js a, count_of_found p r js b, unique_rows p q r js a b)

-- A row of the current manifest is the one that its own id finds.
row_of_id :
    (id : String) (ms : List SnapshotManifest) (c : SnapshotManifest)
    → find? (manifest_is id) ms ≡ some c
    → c.job_id ≡ id
row_of_id id ms c h = (eq_iff c.job_id id).0 (find?-holds (manifest_is id) ms c h)

current_row :
    (o : Option String) (ms : List SnapshotManifest) (c : SnapshotManifest)
    → manifest_in o ms ≡ some c
    → find? (manifest_is c.job_id) ms ≡ some c
current_row none ms c h = absurd (let z : ⊥ = cc in z)
current_row (some id) ms c h =
    subst (λ i. find? (manifest_is i) ms ≡ some c) (sym (row_of_id id ms c h)) h

-- What the manifest in front hides nothing of: the row that was current before.
shifted :
    (m : SnapshotManifest) (o : Option String) (ms : List SnapshotManifest)
    (c : Option SnapshotManifest)
    → find? (manifest_is m.job_id) ms ≡ none
    → manifest_in o ms ≡ c
    → is_missing o c ≡ false
    → manifest_in o (m ∷ ms) ≡ c
shifted m none ms c new h k = h
shifted m (some id) ms none new h k = absurd (let z : ⊥ = cc in z)
shifted m (some id) ms (some c) new h k = elim (Bool-cases (manifest_is id m)) [
  | inl e ↦
      let same_id = (eq_iff m.job_id id).0 e in
      absurd (let z : ⊥ = cc (subst (λ i. find? (manifest_is i) ms ≡ none) same_id new, h) in z)
  | inr e ↦ rw e h
]

-- Two snapshots of one base come from one job.
same_base_same_job :
    (js : List SnapshotJob) (c m : SnapshotManifest) (j : SnapshotJob)
    → ((t : ℕ) → count (same_target t) js ≤ 1)
    → MadeBy js (some c)
    → find? (job_is m.job_id) js ≡ some j
    → same_target m.base_room_seq j ≡ true
    → c.base_room_seq ≡ m.base_room_seq
    → c.job_id ≡ m.job_id
same_base_same_job js c m j unique made found its_target same_base =
    let one : made.0 ≡ j =
      unique_rows (same_target m.base_room_seq) (job_is c.job_id) (job_is m.job_id) js made.0 j
        (unique m.base_room_seq) made.1 (subst (λ t. same_target t made.0 ≡ true) same_base made.2)
        found its_target in
    sym ((eq_iff made.0.job_id c.job_id).0 (find?-holds (job_is c.job_id) js made.0 made.1))
    ∙ ap (λ (k : SnapshotJob). k.job_id) one
    ∙ (eq_iff j.job_id m.job_id).0 (find?-holds (job_is m.job_id) js j found)

matches_job_lem :
    (m : SnapshotManifest) (j : SnapshotJob)
    → matches_job m j ≡ true
    → (j.target_room_seq ≡ m.base_room_seq) × (j.renderer_version ≡ m.renderer_version)
matches_job_lem m j h = (ground arith, ground arith)

supported_lem :
    (m : SnapshotManifest)
    → validate_snapshot_manifest m ≡ true
    → (supported_manifest m ≡ true) × (m.renderer_version ≡ 1)
unfolding validate_snapshot_manifest
supported_lem m h = (ground arith, ground arith)

pub Fits-next :
    (through last : ℕ) (p c : Option SnapshotManifest) (m : SnapshotManifest)
    → Fits through last p c
    → m.base_room_seq ≤ last
    → is_older m c ≡ false
    → ((d : SnapshotManifest) → c ≡ some d → d.base_room_seq ≢ m.base_room_seq)
    → Fits through last c (some m)
Fits-next through last none none m f k h n = (f, k)
Fits-next through last (some p) none m f k h n = absurd f
Fits-next through last p (some c) m f k h n =
    let (low, high) = Fits-base through last p c f in
    let differs = n c refl in (low, ground arith, k)

-- A valid manifest of a queued job that is not older than the current one.
module _ (last : ℕ) (m : SnapshotManifest) (j : SnapshotJob) (s : SnapshotStore)
    (inv : SnapshotInv last s) (valid : validate_snapshot_manifest m ≡ true)
    (found : find? (job_is m.job_id) s.jobs ≡ some j) (matching : matches_job m j ≡ true)
    (new : find? (manifest_is m.job_id) s.manifests ≡ none) where
  its_target : same_target m.base_room_seq j ≡ true
  its_target =
      let (target, renderer) = matches_job_lem m j matching in
      let (known, version) = supported_lem m valid in ground arith

  base_reached : m.base_room_seq ≤ last
  base_reached =
      let (target, renderer) = matches_job_lem m j matching in
      let f =
        All-find (JobFits s.state.compacted_through last) (job_is m.job_id) s.jobs j inv.each_job
          found in
      omega (arith, f.reached, target)

  pub other_base :
      (c : Option SnapshotManifest)
      → c ≡ inv.current
      → (d : SnapshotManifest) → c ≡ some d
      → d.base_room_seq ≢ m.base_room_seq
  other_base c is_current d e same_base =
      let current : inv.current ≡ some d = sym is_current ∙ e in
      let same_id =
        same_base_same_job s.jobs d m j inv.unique_target
          (subst (MadeBy s.jobs) current inv.made_by) found its_target same_base in
      let row = current_row s.state.current_job_id s.manifests d (inv.is_current ∙ current) in
      let z : ⊥ = cc (subst (λ i. find? (manifest_is i) s.manifests ≡ some d) same_id row, new) in z

  pub insert_manifest-TablesInv :
      is_older m inv.current ≡ false
      → TablesInv last s.events
          (update (job_is m.job_id) (set_status committed_job) s.jobs)
          (m ∷ s.manifests)
          (record s.state {
            previous_job_id = s.state.current_job_id;
            current_job_id = some m.job_id;
          })
  insert_manifest-TablesInv newest =
      let marked = mark_job-SnapshotInv committed_job refl last m.job_id s inv in
      record {
        current = some m;
        previous = inv.current;
        run = inv.run;
        each_job = marked.each_job;
        unique_id = marked.unique_id;
        unique_target = marked.unique_target;
        each_manifest = ((supported_lem m valid).0, inv.each_manifest);
        is_current = rw (eq_refl m.job_id) refl;
        is_previous =
            shifted m s.state.current_job_id s.manifests inv.current new inv.is_current
              inv.has_current;
        has_current = refl;
        has_previous = inv.has_current;
        fits =
            Fits-next s.state.compacted_through last inv.previous inv.current m inv.fits
              base_reached newest (other_base inv.current refl);
        shadow = inv.shadow;
        made_by = (
          set_status committed_job j,
          find?-update_self (job_is m.job_id) (set_status committed_job) s.jobs j (λ x. refl) found,
          its_target,
        );
      }
