-- ===== src/Room/Snapshots/Replay.antt =====
-- apps/realtime/src/drawing-room.ts: the chunks of `snapshotEvents`, on consistent tables.
use echa.Prelude.{
  ℕ, zero, suc, ◌+◌, ◌≤◌, min, ◌≡◌, refl, ap, sym, ◌∙◌, true, false, ◌&&◌, some, List, [], ◌∷◌,
  ◌++◌, arith, ◌==◌, leb, ltb, select, length, find?, All-find, bind_of,
}
use echa.Room.Snapshots.Worker.{in_turn}
use echa.Room.Log.{StoredEvent}
use echa.Room.Snapshots.{SnapshotJob, SnapshotStore, job_is, is_queued_job}
use echa.Room.Snapshots.Events.{in_range, take, last_of, bounded_limit, snapshot_events}
use echa.Room.Snapshots.Rows.{
  IsRun, IsRun-le, IsRun-length, select-IsRun, take-IsRun, last_of-IsRun,
}
use echa.Room.Snapshots.Invariant.{JobFits, SnapshotInv}

pub in_turn-IsRun :
    (low high : ℕ) (es : List StoredEvent) → IsRun low es high → in_turn (suc low) es ≡ true
in_turn-IsRun low high [] h = refl
in_turn-IsRun low high (e ∷ es) h = ground (arith, h.0, in_turn-IsRun (suc low) high es h.1)

-- A later range of a range.
select-select :
    (after later through : ℕ) (es : List StoredEvent)
    → after ≤ later
    → select (in_range later through) (select (in_range after through) es)
      ≡ select (in_range later through) es
select-select after later through [] h = refl
select-select after later through (e ∷ es) h =
    ground (arith, select-select after later through es h)

select_all :
    (low through : ℕ) (es : List StoredEvent)
    → IsRun low es through
    → (after : ℕ) → after ≤ low
    → select (in_range after through) es ≡ es
select_all low through [] h after k = refl
select_all low through (e ∷ es) h after k = ground (
  arith,
  h.0,
  IsRun-le (suc low) through es h.1,
  select_all (suc low) through es h.1 after (omega arith),
)

-- A chunk and the rows after it.
take-select :
    (n low through : ℕ) (es : List StoredEvent)
    → IsRun low es through
    → (to : ℕ) → to ≡ min (low + n) through
    → take n es ++ select (in_range to through) es ≡ es
take-select zero low through es h to e = select_all low through es h to (omega arith)
take-select (suc n) low through [] h to e = refl
take-select (suc n) low through (x ∷ es) h to e =
    let le = IsRun-le (suc low) through es h.1 in
    let skipped : in_range to through x ≡ false = ground (arith, h.0) in
    rw skipped (ap (λ r. x ∷ r) (take-select n (suc low) through es h.1 to (omega arith)))

pub select_nothing : (at : ℕ) (es : List StoredEvent) → select (in_range at at) es ≡ []
select_nothing at [] = refl
select_nothing at (e ∷ es) = ground (arith, select_nothing at es)

abbrev pub wanted_events : SnapshotJob → ℕ → SnapshotStore → List StoredEvent
wanted_events j after s = select (in_range after j.target_room_seq) s.events

module _ (last : ℕ) (s : SnapshotStore) (inv : SnapshotInv last s) (j : SnapshotJob)
    (found : find? (job_is j.job_id) s.jobs ≡ some j) (waits : is_queued_job j ≡ true) where
  fits : JobFits s.state.compacted_through last j
  fits =
      All-find (JobFits s.state.compacted_through last) (job_is j.job_id) s.jobs j inv.each_job
        found

  wanted-IsRun :
      (after : ℕ)
      → j.source_base_room_seq ≤ after
      → after ≤ j.target_room_seq
      → IsRun after (wanted_events j after s) j.target_room_seq
  wanted-IsRun after h k =
      select-IsRun s.state.compacted_through last after j.target_room_seq s.events inv.run
        (let low = fits.kept waits in omega arith) k fits.reached

  -- A chunk of a queued job's events, from any cursor that the job admits: the next events in their
  -- order, none missing, and done exactly at the target.
  pub snapshot_events_lem :
      (after limit : ℕ)
      → j.source_base_room_seq ≤ after
      → after ≤ j.target_room_seq
      → let to = min (after + bounded_limit limit) j.target_room_seq in
        let rows = take (bounded_limit limit) (wanted_events j after s) in
        (snapshot_events j.job_id after limit s
          ≡ some (record {
            job = j;
            events = rows;
            next_after_room_seq = to;
            done = to == j.target_room_seq;
          }))
        × IsRun after rows to
  unfolding snapshot_events
  snapshot_events_lem after limit h k =
      let n = bounded_limit limit in
      let to = min (after + n) j.target_room_seq in
      let rows = take n (wanted_events j after s) in
      let run =
        take-IsRun n after j.target_room_seq (wanted_events j after s) (wanted-IsRun after h k) in
      let many = IsRun-length after to rows run in
      let end_of : last_of after rows ≡ to = last_of-IsRun after to rows run in
      let under : leb after j.target_room_seq ≡ true = ground arith in
      let above : leb j.source_base_room_seq after ≡ true = ground arith in
      let no_gap : (ltb (last_of after rows) j.target_room_seq && length rows == 0) ≡ false =
        ground (arith, many, end_of) in
      (
        bind_of _ found
            ∙ rw (under, above, no_gap, fits.known)
                (ap
                  (λ t. some (record {
                    job = j;
                    events = rows;
                    next_after_room_seq = t;
                    done = t == j.target_room_seq;
                  }))
                  end_of),
        run,
      )

  -- The chunk and the events after it.
  pub chunk_and_rest :
      (after to : ℕ)
      → j.source_base_room_seq ≤ after
      → after ≤ j.target_room_seq
      → to ≡ min (after + 500) j.target_room_seq
      → take 500 (wanted_events j after s) ++ wanted_events j to s ≡ wanted_events j after s
  chunk_and_rest after to h k e =
      let wanted = wanted_events j after s in
      ap (λ r. take 500 wanted ++ r)
        (sym (select-select after to j.target_room_seq s.events (omega arith)))
      ∙ take-select 500 after j.target_room_seq wanted (wanted-IsRun after h k) to e
