-- ===== src/Room/Tests/Runs.antt =====
-- apps/realtime/src/drawing-room.ts: concrete histories of the drawing log.
use echa.Prelude.{◌≡◌, refl, ◌+◌, ◌≤◌, some, List, [], ◌∷◌, arith}
use echa.Protocol.Limits.{max_room_events}
use echa.Protocol.Messages.{brush, StrokeStyle, ClientStrokeEvent}
use echa.Protocol.Validation.{Coordinate}
use echa.Protocol.Outbox.{StrokeOutbox, empty_outbox}
use echa.Protocol.Outbox.Strokes.{Move, draw_stroke}
use echa.Room.Log.{Stroke, applied}
use echa.Room.Log.Drawn.{apply_all, IsEnded, drawn_stroke_applies}
use echa.Room.History.Runs.{persisted, Run, start, next, Holds, run_bounded}
use echa.Room.Persist.Invariant.{RoomInv}
use echa.Room.Tests.{
  fresh, fresh-RoomInv, begun_room, first_accepted, first_event, ann_socket, size,
}

fresh-Holds : Holds 20 fresh
fresh-Holds = record {
  consistent = fresh-RoomInv;
  bounded = record { active = omega arith; total = omega arith };
}

one_event : Run size 20 fresh begun_room
one_event = next start (persisted ann_socket first_event 1_010 first_accepted (omega arith))

run_bounded_example : RoomInv begun_room × (1 ≤ max_room_events + 20)
run_bounded_example = run_bounded size 20 fresh-Holds one_event

abbrev first_move : Move
first_move = record { x = Coordinate.at 10_000; y = Coordinate.at 20_000; seen_at = 1_000 }

abbrev second_move : Move
second_move = record { x = Coordinate.at 11_000; y = Coordinate.at 20_000; seen_at = 1_020 }

abbrev ink : StrokeStyle
ink = record { tool = brush; color = "#000000"; size = 400; opacity = 100 }

drawn_stroke_applies_example :
    (o' : StrokeOutbox) × (es : List ClientStrokeEvent) × (t : List Stroke) × (draw_stroke
        "stroke-one" ink first_move
        (second_move ∷ [])
        1_100
        empty_outbox
      ≡ some (o', es))
    × (apply_all "ann" (λ n. 2_000 + n) es [] ≡ some (applied t))
    × IsEnded "stroke-one" 2 t
drawn_stroke_applies_example =
    drawn_stroke_applies "ann" "stroke-one" ink first_move (second_move ∷ []) 1_100 empty_outbox
      (λ n. 2_000 + n) [] refl (omega arith) (omega arith, tt) refl refl
