-- ===== src/Room/Tests/Cut.antt =====
-- apps/realtime/src/drawing-room.ts: events that a small room does not persist.
use echa.Prelude.{◌≡◌, refl, some, []}
use echa.Protocol.Messages.{end, ClientStrokeEvent, rate_limited}
use echa.Room.Abuse.{AbuseTable, record_rate_abuse}
use echa.Room.Discard.{Discarded, reject_rate_limited_drawing}
use echa.Room.Discard.Effects.{IsNext, UsedUp, reject_rate_limited_drawing_lem}
use echa.Room.Tests.{ann_after, ann_socket, begun_room, size, one_drawn}

abbrev no_abuse : AbuseTable
no_abuse = record { rows = []; rate_limited = 0; short_mute = 0; abuse_disconnect = 0 }

abbrev second_event : ClientStrokeEvent
second_event = record { client_seq = 2; id = "stroke-one"; op = end }

second-IsNext : IsNext ann_socket second_event begun_room
second-IsNext = record { connection = ann_after; found = refl; mine = refl; next = refl }

reject_rate_limited_drawing_example :
    (d : Discarded) × (reject_rate_limited_drawing size ann_socket second_event 3_000 begun_room
        no_abuse
      ≡ some d)
    × UsedUp (some "ann") ann_socket second_event begun_room d rate_limited
    × (d.abuse ≡ (record_rate_abuse "ann" 3_000 no_abuse).0)
    × (d.disconnect ≡ (record_rate_abuse "ann" 3_000 no_abuse).1.disconnect)
reject_rate_limited_drawing_example =
    reject_rate_limited_drawing_lem size ann_socket second_event 3_000 begun_room no_abuse one_drawn
      second-IsNext
