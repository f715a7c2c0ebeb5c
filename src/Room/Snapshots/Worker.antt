-- ===== src/Room/Snapshots/Worker.antt =====
-- apps/snapshot/src/processor.ts: `sameJob`, `applyEvents` and the loop of `processSnapshotJob` that
-- replays a job's events chunk by chunk, over `snapshotEvents` of the room. The strokes that the session
-- of the renderer is given are a list, in their order; the number of chunks is left out. `none` is an
-- exception.
use echa.Prelude.{
  ℕ, zero, suc, ◌+◌, String, Bool, true, false, ◌&&◌, Option, none, some, List, [], ◌∷◌, ◌++◌, ◌==◌,
  leb, same, if◌then◌else◌, is_some, length, find?, update, delete, guard, ◌>>=◌, ◌>>◌,
}
use echa.Protocol.Messages.{
  Point, StrokeStyle, StrokeOp, begin, append, end, cancel, RoomStrokeEvent, from_client,
  auto_finalized, event_id,
}
use echa.Room.Log.{StoredEvent}
use echa.Room.Snapshots.{SnapshotJob, SnapshotStore, snapshot_event_chunk_limit}
use echa.Room.Snapshots.Events.{SnapshotEventChunk, snapshot_events}

abbrev same_source : Option String → Option String → Bool
same_source none none = true
same_source (some a) (some b) = same a b
same_source _ _ = false

abbrev pub same_job : (actual expected : SnapshotJob) → Bool
same_job a e =
    same a.job_id e.job_id
    && same a.room_id e.room_id
    && a.target_room_seq == e.target_room_seq
    && a.protocol_version == e.protocol_version
    && a.renderer_version == e.renderer_version
    && a.canvas_generation == e.canvas_generation
    && a.generation == e.generation
    && same_source a.source_job_id e.source_job_id
    && a.source_base_room_seq == e.source_base_room_seq

-- `event.roomSeq !== expectedRoomSeq` throws.
abbrev pub in_turn : ℕ → List StoredEvent → Bool
in_turn expected [] = true
in_turn expected (e ∷ es) = e.room_seq == expected && in_turn (suc expected) es

pub record MutableRendererStroke : Type 0 where
  pub style : StrokeStyle
  pub points : List Point

-- An entry of the map `active`.
pub record ActiveEntry : Type 0 where
  pub id : String
  pub stroke : MutableRendererStroke

-- The map `active`, in the order of insertion, and the strokes that the session was given.
pub record AppliedEvents : Type 0 where
  pub active : List ActiveEntry
  pub drawn : List MutableRendererStroke

abbrev pub entry_is : String → ActiveEntry → Bool
entry_is id a = same a.id id

abbrev add_points : List Point → ActiveEntry → ActiveEntry
add_points ps a = record a { stroke = record a.stroke { points = a.stroke.points ++ ps } }

-- The opcode of an event of the log: an event of the server ends its stroke.
abbrev pub op_of : RoomStrokeEvent → StrokeOp
op_of (from_client e) = e.op
op_of (auto_finalized id) = end

-- A round of the loop of `applyEvents`.
abbrev pub apply_event : String → StrokeOp → AppliedEvents → Option AppliedEvents
apply_event id (begin style p) r =
    if is_some (find? (entry_is id) r.active)
    then none
    else some (record r {
      active =
          r.active ++ record { id = id; stroke = record { style = style; points = p ∷ [] } } ∷ [];
    })
apply_event id (append ps) r = do
  _ ← find? (entry_is id) r.active
  some (record r { active = update (entry_is id) (add_points ps) r.active })
apply_event id end r = do
  a ← find? (entry_is id) r.active
  some (record { active = delete (entry_is id) r.active; drawn = r.drawn ++ a.stroke ∷ [] })
apply_event id cancel r = do
  _ ← find? (entry_is id) r.active
  some (record r { active = delete (entry_is id) r.active })

unfoldable pub apply_events : List StoredEvent → AppliedEvents → Option AppliedEvents
apply_events [] r = some r
apply_events (e ∷ es) r = do
  r' ← apply_event (event_id e.event) (op_of e.event) r
  apply_events es r'

pub record ReplayCounts : Type 0 where
  pub events : ℕ
  pub points : ℕ
  pub strokes : ℕ

abbrev pub count_op : StrokeOp → ReplayCounts → ReplayCounts
count_op (begin style p) c = record c { points = c.points + 1 }
count_op (append ps) c = record c { points = c.points + length ps }
count_op end c = record c { strokes = c.strokes + 1 }
count_op cancel c = c

abbrev pub count_events : List StoredEvent → ReplayCounts → ReplayCounts
count_events [] c = c
count_events (e ∷ es) c =
    count_events es (count_op (op_of e.event) (record c { events = c.events + 1 }))

-- The variables of the loop.
pub record Replayed : Type 0 where
  pub applied : AppliedEvents
  pub counts : ReplayCounts
  pub cursor : ℕ

abbrev pub not_replayed : ℕ → Replayed
not_replayed base = record {
  applied = record { active = []; drawn = [] };
  counts = record { events = 0; points = 0; strokes = 0 };
  cursor = base;
}

-- A round of the loop, when the session has the chunk's events.
abbrev pub after_chunk : SnapshotEventChunk → AppliedEvents → Replayed → Replayed
after_chunk chunk applied r = record {
  applied = applied;
  counts = count_events chunk.events r.counts;
  cursor = chunk.next_after_room_seq;
}

abbrev pub replay_rest :
    (Replayed → Option Replayed) → SnapshotEventChunk → Replayed → Option Replayed
replay_rest next chunk r =
    if chunk.done then some r else if length chunk.events == 0 then none else next r

-- Over a room that keeps its tables meanwhile. Each round but the last moves the cursor, so that as
-- many rounds as there are events, and one, are enough.
unfoldable pub replay_events : ℕ → SnapshotJob → SnapshotStore → Replayed → Option Replayed
replay_events zero job s r = none
replay_events (suc n) job s r = do
  chunk ← snapshot_events job.job_id r.cursor snapshot_event_chunk_limit s
  guard (same_job chunk.job job)
  guard (in_turn (suc r.cursor) chunk.events)
  applied ← apply_events chunk.events r.applied
  guard (leb r.cursor chunk.next_after_room_seq)
  replay_rest (replay_events n job s) chunk (after_chunk chunk applied r)

-- The strokes that `processSnapshotJob` draws on the pixels of its source, whose number is `base`, and
-- the counts: the target is to be at a boundary of the strokes.
unfoldable pub replay_job :
    ℕ
    → SnapshotJob
    → (base : ℕ) → SnapshotStore
    → Option (List MutableRendererStroke × ReplayCounts)
replay_job n job base s = do
  r ← replay_events n job s (not_replayed base)
  guard (r.cursor == job.target_room_seq && length r.applied.active == 0)
  some (r.applied.drawn, r.counts)
