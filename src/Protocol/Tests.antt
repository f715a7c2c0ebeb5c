-- ===== src/Protocol/Tests.antt =====
-- packages/protocol/src/outbox.ts: a small stroke on which the theorems about the outbox are run.
use echa.Prelude.{ℕ, ◌≡◌, refl, Option, none, some, List, [], ◌∷◌, arith}
use echa.Protocol.Messages.{brush, StrokeStyle, ClientStrokeEvent, begin as begin_op}
use echa.Protocol.Validation.{Coordinate, normalize_point}
use echa.Protocol.Outbox.{
  StrokeOutbox, empty_outbox, issue, flush_active, flush, append_active, append, begin, drain, end,
  acknowledge, events_to_retry, events_to_send,
}
use echa.Protocol.Outbox.Queue.{IsRange, IsAscending}
use echa.Protocol.Outbox.Calls.{Reached, new, called, begins, seqs, queue_in_order}
use echa.Protocol.Outbox.Strokes.{Move, draw_moves, draw_stroke, Drawn, draw_stroke_lem}

runs : Unit {0}
unfolding normalize_point issue flush_active flush append_active append begin drain end acknowledge
    draw_moves draw_stroke
runs = tt

abbrev ink : StrokeStyle
ink = record { tool = brush; color = "#000000"; size = 4_000; opacity = 100 }

abbrev start : Move
start = record { x = Coordinate.at 10_000; y = Coordinate.before 3_000; seen_at = 1_000 }

abbrev moves : List Move
moves =
    record { x = Coordinate.at 10_254; y = Coordinate.at 20_006; seen_at = 1_010 }
    ∷ record { x = Coordinate.at 1_200_000; y = Coordinate.at 30_000; seen_at = 1_060 }
    ∷ record { x = Coordinate.at 12_000; y = Coordinate.at 40_000; seen_at = 1_070 }
    ∷ []

-- The numbers of the events.
abbrev sent_by : Option (StrokeOutbox × List ClientStrokeEvent) → List ℕ
sent_by none = []
sent_by (some r) = seqs r.1

-- The second movement is past the interval, so that two points are sent with it and one at the end, before the last event.
four_events :
    sent_by (draw_stroke "stroke-one" ink start moves 1_080 empty_outbox) ≡ 1 ∷ 2 ∷ 3 ∷ 4 ∷ []
unfolding runs
four_events = refl

draw_stroke_example :
    (o' : StrokeOutbox) × (es : List ClientStrokeEvent) × (draw_stroke "stroke-one" ink start moves
        1_080 empty_outbox
      ≡ some (o', es))
    × Drawn "stroke-one" ink start moves empty_outbox o' es
draw_stroke_example =
    draw_stroke_lem "stroke-one" ink start moves 1_080 empty_outbox refl (omega arith)

abbrev one_begun : StrokeOutbox
one_begun = record {
  next_client_seq = 2;
  active = some (record {
    id = "stroke-one";
    started_at = 1_000;
    last_flush_at = 1_000;
    point_count = 1;
    pending = [];
  });
  last_acknowledged = 0;
  unsent = 1 ∷ [];
  unacknowledged =
      record {
        client_seq = 1;
        id = "stroke-one";
        op = begin_op ink (record { x = 1_000; y = 0; dt = 0 });
      }
      ∷ [];
}

one_begun-Reached : Reached one_begun
unfolding runs
one_begun-Reached = called new (begins "stroke-one" ink start.x start.y 1_000 refl)

queue_in_order_example :
    IsRange 1 2 (events_to_retry one_begun)
    × (events_to_retry one_begun ≡ one_begun.unacknowledged)
    × (seqs (events_to_send one_begun) ≡ 1 ∷ [])
    × IsAscending 0 2 one_begun.unsent
queue_in_order_example = queue_in_order one_begun one_begun-Reached
