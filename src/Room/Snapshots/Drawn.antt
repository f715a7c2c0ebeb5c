-- ===== src/Room/Snapshots/Drawn.antt =====
-- apps/snapshot/src/processor.ts: a job of one stroke, which is begun, continued and ended.
use echa.Prelude.{ℕ, ◌≡◌, refl, none, some, [], ◌∷◌}
use echa.Protocol.Messages.{StrokeStyle, Point, StrokeOp, brush, begin, append, end, from_client}
use echa.Room.Log.{StoredEvent}
use echa.Room.Store.{queued_job}
use echa.Room.Snapshots.{SnapshotJob, SnapshotStore}
use echa.Room.Snapshots.Events.{snapshot_events}
use echa.Room.Snapshots.Sample.{event, first_job, room}
use echa.Room.Snapshots.Worker.{apply_events, replay_events, replay_job}

abbrev style : StrokeStyle
style = record { tool = brush; color = "#102030"; size = 4_000; opacity = 100 }

abbrev point : ℕ → Point
point n = record { x = n; y = n; dt = n }

abbrev drawn : ℕ → StrokeOp → StoredEvent
drawn n op = record (event n) {
  event = from_client (record { client_seq = n; id = "stroke-0123456789-abc"; op = op });
}

abbrev drawn_job : SnapshotJob
drawn_job = record first_job { target_room_seq = 3; status = queued_job }

abbrev drawn_room : SnapshotStore
drawn_room = record room {
  events =
      drawn 1 (begin style (point 0))
      ∷ drawn 2 (append (point 5 ∷ point 9 ∷ []))
      ∷ drawn 3 end
      ∷ [];
  jobs = drawn_job ∷ [];
  manifests = [];
  state = record room.state { current_job_id = none; previous_job_id = none };
}

-- One stroke of three points is drawn.
is_drawn :
    replay_job 4 drawn_job 0 drawn_room
    ≡ some (
      record { style = style; points = point 0 ∷ point 5 ∷ point 9 ∷ [] } ∷ [],
      record { events = 3; points = 3; strokes = 1 },
    )
unfolding replay_job replay_events snapshot_events apply_events
is_drawn = refl
