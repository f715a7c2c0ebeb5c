-- ===== src/Room/Snapshots/Rendered.antt =====
-- apps/snapshot/src/processor.ts: what the loop of `processSnapshotJob` draws, on consistent tables of
-- the room.
use echa.Prelude.{ℕ, Option, some, List, ◌==◌, length, guard, ◌>>=◌, ◌>>◌}
use echa.Room.Snapshots.Worker.{
  ReplayCounts, Replayed, apply_events, count_events, not_replayed, MutableRendererStroke,
}
use echa.Room.Log.{StoredEvent}

-- All the events applied at once.
abbrev replayed_at : ℕ → List StoredEvent → Replayed → Option Replayed
replayed_at to es r = apply_events es r.applied >>= λ applied.
    some (record { applied = applied; counts = count_events es r.counts; cursor = to })

abbrev pub applied_at_once :
    ℕ → List StoredEvent → Option (List MutableRendererStroke × ReplayCounts)
applied_at_once base es = do
  applied ← apply_events es (not_replayed base).applied
  guard (length applied.active == 0)
  some (applied.drawn, count_events es (not_replayed base).counts)
