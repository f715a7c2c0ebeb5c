-- ===== src/Room/Snapshots/Deletion.antt =====
-- apps/realtime/src/drawing-room.ts: `compactSnapshotEvents` where it deletes rows.
use mathlib.Core.Path.{subst}
use native.Mathlib.Nat.{le_trans}
use echa.Prelude.{
  ℕ, suc, ◌+◌, ◌≤◌, min, max, ◌≡◌, refl, ap, sym, ◌∙◌, inl, inr, true, false, ◌&&◌, Option, none,
  some, List, [], ◌∷◌, arith, ltb, leb, if◌then◌else◌, select, delete, length, All, All-zip,
  All-imp, Bool-cases, bind_of, some_inj,
}
use echa.Room.Log.{StoredEvent}
use echa.Room.Snapshots.{SnapshotJob, SnapshotManifest, SnapshotStore, is_queued_job}
use echa.Room.Snapshots.Events.{in_range, take, last_of}
use echa.Room.Snapshots.Compaction.{
  earlier, blocker_of, source_or, is_missing, state_with, snapshot_compaction_state, delete_rows,
  compact_rows,
}
use echa.Room.Snapshots.Rows.{
  IsRun, IsRun-le, IsRun-length, select-IsRun, take-IsRun, last_of-IsRun, delete-IsRun,
}
use echa.Room.Snapshots.Invariant.{Fits, JobFits, TablesInv, SnapshotInv, read_known}

earlier_least :
    (d : ℕ) (j : SnapshotJob) (o : Option SnapshotJob)
    → (source_or d (some (earlier j o)) ≤ j.source_base_room_seq)
      × ((k : SnapshotJob)
          → o ≡ some k
          → (earlier j o).source_base_room_seq ≤ k.source_base_room_seq)
earlier_least d j none = (omega arith, λ k e. absurd (let z : ⊥ = cc e in z))
earlier_least d j (some k) =
    (ground arith, λ l e. (let is_l : k ≡ l = some_inj _ _ e in ground (arith, is_l)))

abbrev IsFirst : Option SnapshotJob → SnapshotJob → Type 0
IsFirst o j =
    is_queued_job j ≡ true
    → (k : SnapshotJob) × (o ≡ some k) × (k.source_base_room_seq ≤ j.source_base_room_seq)

blocker_queued :
    (j : SnapshotJob) (js : List SnapshotJob)
    → is_queued_job j ≡ true
    → some (earlier j (blocker_of js)) ≡ blocker_of (j ∷ js)
blocker_queued j js h = rw h

blocker_other :
    (j : SnapshotJob) (js : List SnapshotJob)
    → is_queued_job j ≡ false
    → blocker_of js ≡ blocker_of (j ∷ js)
blocker_other j js h = rw h

after_earlier :
    (j : SnapshotJob) (o : Option SnapshotJob) (i : SnapshotJob)
    → IsFirst o i
    → IsFirst (some (earlier j o)) i
after_earlier j o i first q =
    let (k, is_k, before) = first q in
    (earlier j o, refl, le_trans ((earlier_least 0 j o).1 k is_k) before)

-- No queued job starts before the first of them.
blocker_of-IsFirst : (js : List SnapshotJob) → All (IsFirst (blocker_of js)) js
blocker_of-IsFirst [] = tt
blocker_of-IsFirst (j ∷ js) = elim (Bool-cases (is_queued_job j)) [
  | inl waits ↦
      subst (λ o. All (IsFirst o) (j ∷ js)) (blocker_queued j js waits)
        (
          λ q. (earlier j (blocker_of js), refl, (earlier_least 0 j (blocker_of js)).0),
          All-imp (IsFirst (blocker_of js)) (IsFirst (some (earlier j (blocker_of js)))) js
              (after_earlier j (blocker_of js)) (blocker_of-IsFirst js),
        )
  | inr done ↦
      subst (λ o. All (IsFirst o) (j ∷ js)) (blocker_other j js done)
        (λ q. absurd (let z : ⊥ = cc (sym done ∙ q) in z), blocker_of-IsFirst js)
]

-- What is read of consistent tables.
pub snapshot_compaction_state_lem :
    (last : ℕ) (s : SnapshotStore) (inv : SnapshotInv last s)
    → snapshot_compaction_state s ≡ some (state_with inv.current inv.previous s)
unfolding snapshot_compaction_state
snapshot_compaction_state_lem last s inv =
    bind_of _
      (read_known s.state.current_job_id s.manifests inv.each_manifest ∙ ap some inv.is_current)
    ∙ bind_of _
        (read_known s.state.previous_job_id s.manifests inv.each_manifest ∙ ap some inv.is_previous)
    ∙ rw (inv.has_current, inv.has_previous) refl

-- A chunk of the rows up to `safe`.
module _ (limit through safe last : ℕ) (events : List StoredEvent) (run : IsRun through events last)
    (below : through ≤ safe) (within : safe ≤ last) where
  abbrev rows : List StoredEvent
  rows = take limit (select (in_range through safe) events)

  rows-IsRun : IsRun through rows (min (through + limit) safe)
  rows-IsRun =
      take-IsRun limit through safe (select (in_range through safe) events)
        (select-IsRun through last through safe events run (omega arith) below within)

  rows_through :
      (if ltb (length rows) limit then safe else last_of through rows) ≡ min (through + limit) safe
  rows_through =
      let many = IsRun-length through (min (through + limit) safe) rows rows-IsRun in
      let end_of = last_of-IsRun through (min (through + limit) safe) rows rows-IsRun in
      ground arith

  deleted :
      (rs : List StoredEvent) (to : ℕ)
      → IsRun through rs to
      → to ≤ last
      → IsRun to (delete_rows rs events) last
  deleted [] to r h = subst (λ t. IsRun t events last) r run
  deleted (e ∷ rs) to r h =
      let end_of = last_of-IsRun (suc through) to rs r.1 in
      let same_end : last_of e.room_seq rs ≡ to = ap (λ n. last_of n rs) r.0 ∙ end_of in
      subst
        (λ t.
          IsRun to
            (delete (λ (d : StoredEvent). leb e.room_seq d.room_seq && leb d.room_seq t) events)
            last)
        (sym same_end)
        (delete-IsRun through last e.room_seq to events run (omega (arith, r.0))
          (omega (arith, IsRun-le (suc through) to rs r.1)) h)

Fits-further :
    (through further last : ℕ) (p : SnapshotManifest) (c : Option SnapshotManifest)
    → Fits through last (some p) c
    → further ≤ p.base_room_seq
    → Fits further last (some p) c
Fits-further through further last p none f h = absurd f
Fits-further through further last p (some c) f h = (h, f.1, f.2)

pub Fits-previous :
    (through last : ℕ) (p : SnapshotManifest) (c : Option SnapshotManifest)
    → Fits through last (some p) c
    → (through ≤ p.base_room_seq) × (p.base_room_seq ≤ last)
Fits-previous through last p none f = absurd f
Fits-previous through last p (some c) f = (f.0, omega arith)

-- How far a chunk gets.
abbrev pub reached_by : (limit desired : ℕ) → SnapshotStore → ℕ
reached_by limit desired s =
    min (s.state.compacted_through + limit)
      (max s.state.compacted_through (min desired (source_or desired (blocker_of s.jobs))))

module _ (last limit : ℕ) (s : SnapshotStore) (inv : SnapshotInv last s) (p : SnapshotManifest)
    (is_p : inv.previous ≡ some p) where
  pub Fits-older : Fits s.state.compacted_through last (some p) inv.current
  Fits-older = subst (λ o. Fits s.state.compacted_through last o inv.current) is_p inv.fits

  -- Every queued job starts at that point or later.
  kept_after :
      (safe : ℕ)
      → safe
        ≤ max s.state.compacted_through
            (min p.base_room_seq (source_or p.base_room_seq (blocker_of s.jobs)))
      → All (JobFits safe last) s.jobs
  kept_after safe low =
      All-zip (JobFits s.state.compacted_through last) (IsFirst (blocker_of s.jobs))
        (JobFits safe last) s.jobs
        (λ j f first. record {
          below = f.below;
          reached = f.reached;
          known = f.known;
          kept = λ queued.
              (let (k, is_k, before) = first queued in
                let is_source : source_or p.base_room_seq (blocker_of s.jobs)
                    ≡ k.source_base_room_seq =
                  ap (source_or p.base_room_seq) is_k in
                let low_kept = f.kept queued in omega arith);
        })
        inv.each_job (blocker_of-IsFirst s.jobs)

  -- The tables with the log compacted to a number within the limits.
  compacted_tables :
      (rs : List StoredEvent)
      → let to = reached_by limit p.base_room_seq s in
        IsRun s.state.compacted_through rs to
        → TablesInv last
            (delete_rows rs s.events)
            s.jobs
            s.manifests
            (record s.state { is_compacted = true; compacted_through = to })
  compacted_tables rs run =
      let to = reached_by limit p.base_room_seq s in
      let (low, high) = Fits-previous s.state.compacted_through last p inv.current Fits-older in
      record {
        current = inv.current;
        previous = some p;
        run =
            deleted limit s.state.compacted_through to last s.events inv.run (omega arith)
              (omega arith) rs to run (omega arith);
        each_job = kept_after to (omega arith);
        unique_id = inv.unique_id;
        unique_target = inv.unique_target;
        each_manifest = inv.each_manifest;
        is_current = inv.is_current;
        is_previous = inv.is_previous ∙ is_p;
        has_current = inv.has_current;
        has_previous = ap (is_missing s.state.previous_job_id) (sym is_p) ∙ inv.has_previous;
        fits =
            Fits-further s.state.compacted_through to last p inv.current Fits-older (omega arith);
        shadow = λ k. absurd (ground (arith, k));
        made_by = inv.made_by;
      }

  pub compact_rows-SnapshotInv :
      let c = state_with inv.current (some p) s in
      let rs = take limit (select (in_range c.compacted_through c.safe_through) s.events) in
      SnapshotInv last (compact_rows limit c rs s)
      × ((compact_rows limit c rs s).state.compacted_through ≡ reached_by limit p.base_room_seq s)
  compact_rows-SnapshotInv =
      let c = state_with inv.current (some p) s in
      let rs = take limit (select (in_range c.compacted_through c.safe_through) s.events) in
      let (low, high) = Fits-previous s.state.compacted_through last p inv.current Fits-older in
      let got =
        rows_through limit s.state.compacted_through c.safe_through last s.events inv.run
          (omega arith) (omega arith) in
      let taken =
        rows-IsRun limit s.state.compacted_through c.safe_through last s.events inv.run
          (omega arith) (omega arith) in
      (
        subst
            (λ t.
              TablesInv last (delete_rows rs s.events) s.jobs s.manifests
                (record s.state { is_compacted = true; compacted_through = t }))
            (sym got) (compacted_tables rs taken),
        got,
      )
