-- ===== src/Room/Snapshots/Compacts.antt =====
-- apps/realtime/src/drawing-room.ts: `compactSnapshotEvents` on consistent tables.
use mathlib.Core.Path.{subst}
use echa.Prelude.{
  ℕ, ◌<◌, ◌≡◌, refl, ap, sym, ◌∙◌, inl, inr, String, Bool, true, false, not, Option, none, some,
  arith, ◌==◌, leb, if◌then◌else◌, is_some, select, length, Bool-cases, bind-some, bind_of,
  some_inj,
}
use echa.Room.Snapshots.{SnapshotManifest, SnapshotStore}
use echa.Room.Snapshots.Events.{in_range, take, bounded_limit}
use echa.Room.Snapshots.Compaction.{
  blocker_of, state_with, CompactionChunk, compacted, blocked, nothing_done, blocked_or_compacted,
  blocking_id, compact_rows, compact_to, compact_before, compact_snapshot_events, is_current,
  room_closing, stale,
}
use echa.Room.Snapshots.Commit.{is_active_room}
use echa.Room.Snapshots.Invariant.{SnapshotInv}
use echa.Room.Snapshots.Deletion.{
  snapshot_compaction_state_lem, Fits-previous, reached_by, Fits-older, compact_rows-SnapshotInv,
}

-- What the previous snapshot allows, and whether a queued job stops it before.
abbrev pub is_blocked : ℕ → SnapshotStore → Bool
is_blocked desired s = is_some (blocking_id desired (blocker_of s.jobs))

-- A chunk: the store where the log is compacted as far as the limit and the queued jobs allow.
pub record Chunked (last limit desired : ℕ) (s : SnapshotStore)
    (r : SnapshotStore × CompactionChunk) : Type 0 where
  pub consistent : SnapshotInv last r.0
  pub through : r.0.state.compacted_through ≡ reached_by limit desired s
  pub same_jobs : r.0.jobs ≡ s.jobs
  pub same_manifests : r.0.manifests ≡ s.manifests
  pub same_current : r.0.state.current_job_id ≡ s.state.current_job_id
  pub same_previous : r.0.state.previous_job_id ≡ s.state.previous_job_id
  pub same_lifecycle : r.0.lifecycle ≡ s.lifecycle
  pub same_automation : r.0.automation ≡ s.automation
  pub status : r.1.status ≡ (if is_blocked desired s then blocked else compacted)
  pub finished : r.1.done ≡ leb desired r.0.state.compacted_through

module _ (last limit : ℕ) (s : SnapshotStore) (inv : SnapshotInv last s) (p : SnapshotManifest)
    (is_p : inv.previous ≡ some p) where
  compact_to_lem :
      (r : SnapshotStore × CompactionChunk) × (compact_to limit p.base_room_seq
          (state_with inv.current (some p) s)
          s
        ≡ some r)
      × Chunked last limit p.base_room_seq s r
  compact_to_lem =
      let c = state_with inv.current (some p) s in
      let rs = take limit (select (in_range c.compacted_through c.safe_through) s.events) in
      let s' = compact_rows limit c rs s in
      let (inv', through) = compact_rows-SnapshotInv last limit s inv p is_p in
      let (low, high) =
        Fits-previous s.state.compacted_through last p inv.current
          (Fits-older last limit s inv p is_p) in
      elim (Bool-cases (leb c.safe_through c.compacted_through)) [
        | inl nothing_left ↦ (
          (s, nothing_done (blocked_or_compacted c) (leb p.base_room_seq c.compacted_through)),
          rw nothing_left refl,
          record {
            consistent = inv;
            through = ground arith;
            same_jobs = refl;
            same_manifests = refl;
            same_current = refl;
            same_previous = refl;
            same_lifecycle = refl;
            same_automation = refl;
            status = refl;
            finished = refl;
          },
        )
        | inr more ↦
            let after = state_with inv'.current inv'.previous s' in
            (
              (
                s',
                record {
                  status = blocked_or_compacted after;
                  deleted_event_count = length rs;
                  done = leb p.base_room_seq after.compacted_through;
                },
              ),
              rw more (bind_of _ (snapshot_compaction_state_lem last s' inv')),
              record {
                consistent = inv';
                through = through;
                same_jobs = refl;
                same_manifests = refl;
                same_current = refl;
                same_previous = refl;
                same_lifecycle = refl;
                same_automation = refl;
                status =
                    ap (λ o. blocked_or_compacted (state_with inv'.current o s'))
                      (sym inv'.is_previous ∙ inv.is_previous ∙ is_p);
                finished = refl;
              },
            )
      ]

compact_before_lem :
    (last limit : ℕ) (s : SnapshotStore) (inv : SnapshotInv last s) (p : SnapshotManifest)
    → inv.previous ≡ some p
    → 0 < p.base_room_seq
    → (r : SnapshotStore × CompactionChunk) × (compact_before limit inv.previous
          (state_with inv.current inv.previous s)
          s
        ≡ some r)
      × Chunked last limit p.base_room_seq s r
compact_before_lem last limit s inv p is_p positive =
    let (r, run, d) = compact_to_lem last limit s inv p is_p in
    (
      r,
      ap (λ o. compact_before limit o (state_with inv.current o s) s) is_p
          ∙ let not_empty : (p.base_room_seq == 0) ≡ false = ground arith in rw not_empty run,
      d,
    )

-- In an active room, with the current snapshot named and a previous one that is not empty, a chunk
-- is always processed: it compacts the log as far as the limit and the queued jobs allow.
pub compact_snapshot_events_lem :
    (last limit : ℕ) (id : String) (s : SnapshotStore) (inv : SnapshotInv last s)
    (p : SnapshotManifest)
    → is_active_room s ≡ some true
    → is_current id inv.current ≡ true
    → inv.previous ≡ some p
    → 0 < p.base_room_seq
    → (r : SnapshotStore × CompactionChunk) × (compact_snapshot_events id limit s ≡ some r)
      × Chunked last (bounded_limit limit) p.base_room_seq s r
unfolding compact_snapshot_events
compact_snapshot_events_lem last limit id s inv p active named is_p positive =
    let (r, run, d) = compact_before_lem last (bounded_limit limit) s inv p is_p positive in
    (r, bind_of _ (snapshot_compaction_state_lem last s inv) ∙ bind_of _ active ∙ rw named run, d)

-- Whatever a call comes to, the tables stay consistent.
pub compact_snapshot_events-SnapshotInv :
    (last limit : ℕ) (id : String) (s : SnapshotStore) (r : SnapshotStore × CompactionChunk)
    → SnapshotInv last s
    → compact_snapshot_events id limit s ≡ some r
    → SnapshotInv last r.0
unfolding compact_snapshot_events
compact_snapshot_events-SnapshotInv last limit id s r inv e =
    let e0 = sym (bind_of _ (snapshot_compaction_state_lem last s inv)) ∙ e in
    let (active, known, e1) = bind-some (is_active_room s) _ e0 in
    by_state active (is_current id inv.current) e1
  where
    before :
        (o : Option SnapshotManifest)
        → inv.previous ≡ o
        → compact_before (bounded_limit limit) o (state_with inv.current o s) s ≡ some r
        → SnapshotInv last r.0
    before none is_o h = subst (λ q. SnapshotInv last q.0) (some_inj _ _ h) inv
    before (some p) is_o h = elim (Bool-cases (p.base_room_seq == 0)) [
      | inl empty ↦ subst (λ q. SnapshotInv last q.0) (some_inj _ _ (rw empty at h)) inv
      | inr positive ↦
          let (q, run, d) = compact_to_lem last (bounded_limit limit) s inv p is_o in
          subst (λ t. SnapshotInv last t.0) (some_inj _ _ (sym run ∙ rw positive at h)) d.consistent
    ]

    by_state :
        (active named : Bool)
        → (if not active
            then some (s, nothing_done room_closing false)
            else if not named
            then some (s, nothing_done stale false)
            else compact_before
                (bounded_limit limit)
                inv.previous
                (state_with inv.current inv.previous s)
                s)
          ≡ some r
        → SnapshotInv last r.0
    by_state false named h = subst (λ q. SnapshotInv last q.0) (some_inj _ _ h) inv
    by_state true false h = subst (λ q. SnapshotInv last q.0) (some_inj _ _ h) inv
    by_state true true h = before inv.previous refl h
