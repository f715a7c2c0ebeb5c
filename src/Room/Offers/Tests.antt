-- ===== src/Room/Offers/Tests.antt =====
-- apps/realtime/src/drawing-room.ts: sockets that join the small room.
use echa.Prelude.{
  map, length, ℕ, ◌+◌, ◌≡◌, refl, String, true, Option, none, some, List, [], ◌∷◌, arith, ◌++◌,
}
use echa.Protocol.Value.{Value, Items, nil, cons, object, array, field, no_fields, Serializer}
use echa.Protocol.Value.Text.{is_identifier, is_hash}
use echa.Protocol.Server.Codec.{encode_server_message}
use echa.Room.State.{room_lifecycle_state}
use echa.Room.Snapshots.Commit.{is_active_room}
use echa.Room.Snapshots.Sample.{event, hash, second_manifest, room, room-SnapshotInv}
use echa.Room.Snapshots.Compaction.{snapshot_compaction_state}
use echa.Room.Replay.{accepted_of, Replay, encode_replay_chunk, send_replay}
use echa.Room.Replay.Cache.{Replays}
use echa.Room.Replay.Runs.{ReplayRun, begins, accepts, replays, compacts, ReplayRun-Replays}
use echa.Room.Log.{StoredEvent}
use echa.Room.Replay.{replay_loop, events_after}
use echa.Protocol.Server.{replay}
use echa.Protocol.Server.Records.{wire_message}
use echa.Room.Offers.{
  SnapshotReadTicket, SnapshotReadGrant, JoinRequest, Recovery, recovers, public_snapshot_manifest,
  new_offer, new_ticket, issue_snapshot_offer, consume_snapshot_read_ticket, select_recovery,
  join_recovery,
}
use echa.Room.Offers.Joins.{Recovers, IsReplayed, join_recovery_lem}
use echa.Room.Offers.ReadTickets.{issue_snapshot_offer-consume_snapshot_read_ticket}

-- The bytes of an array, 40,000 for each element, so that a frame has one event.
abbrev bytes_of : Items → ℕ
bytes_of nil = 0
bytes_of (cons v vs) = 40_000 + bytes_of vs

abbrev bytes_in : Value → ℕ
bytes_in (object (field _ _ (field _ (array vs) no_fields))) = bytes_of vs
bytes_in _ = 120

-- A serializer that keeps the value, and a hash that keeps the token.
abbrev keeping : Serializer
keeping = record {
  Frame = Value;
  byte_length = bytes_in;
  encode = λ v. v;
  decode = λ v. some v;
  decode-encode = λ v h. refl;
}

abbrev frame : StoredEvent → Value
frame e = wire_message (replay (accepted_of e ∷ []))

abbrev kept : String → String
kept token = token

abbrev request : JoinRequest
request = record {
  room_id = "room-0001";
  resume_after_room_seq = 1;
  renderer_version = 1;
  snapshot_recovery_enabled = true;
  excluded_snapshot_jobs = [];
}

runs : Unit {0}
unfolding is_identifier is_hash room_lifecycle_state issue_snapshot_offer
    consume_snapshot_read_ticket select_recovery snapshot_compaction_state
runs = tt

room_is_active : is_active_room room ≡ some true
unfolding runs
room_is_active = refl

abbrev issued : List SnapshotReadTicket
issued = new_ticket hash second_manifest 5_000 ∷ []

is_issued :
    issue_snapshot_offer kept "room-0001" 1 [] hash 5_000 room []
    ≡ some (some (new_offer second_manifest hash 5_000), issued)
unfolding runs
is_issued = refl

starts_at_snapshot :
    select_recovery kept request hash 5_000 room []
    ≡ some (recovers (some (new_offer second_manifest hash 5_000)) 3 4, issued)
unfolding runs
starts_at_snapshot = refl

is_room : is_identifier 8 128 "room-0001" ≡ true
unfolding runs
is_room = refl

is_job : is_identifier 8 128 "job-bbbb" ≡ true
unfolding runs
is_job = refl

is_token : is_hash 64 hash ≡ true
unfolding runs
is_token = refl

issue_snapshot_offer-consume_snapshot_read_ticket_example :
    (g : SnapshotReadGrant) × (used : List SnapshotReadTicket) × (consume_snapshot_read_ticket kept
        "room-0001" "job-bbbb" hash 9_000 room issued
      ≡ some (some g, used))
    × (public_snapshot_manifest g.manifest ≡ public_snapshot_manifest second_manifest)
    × (g.expires_at ≡ 65_000)
    × (consume_snapshot_read_ticket kept "room-0001" "job-bbbb" hash 9_500 room used
        ≡ some (none, used))
issue_snapshot_offer-consume_snapshot_read_ticket_example =
    issue_snapshot_offer-consume_snapshot_read_ticket kept "room-0001" 1 [] hash 5_000 room []
      issued (new_offer second_manifest hash 5_000) is_issued is_room is_job is_token 9_000 9_500
      (omega arith) "room-0001" "job-bbbb"

one_event_to_a_frame :
    (frames : List Value) × (encode_replay_chunk keeping 4
        (map accepted_of (event 2 ∷ event 3 ∷ event 4 ∷ []))
      ≡ some frames)
    × (length frames ≡ 3)
unfolding encode_replay_chunk encode_server_message
one_event_to_a_frame = (_, refl, refl)

abbrev two_events : List StoredEvent
two_events = event 1 ∷ event 2 ∷ []

-- One frame for each event, which are cached.
abbrev two_sent : Replay keeping
two_sent = record {
  frames = frame (event 1) ∷ frame (event 2) ∷ [];
  event_count = 2;
  cache = some (record {
    after_room_seq = 0;
    through_room_seq = 2;
    event_count = 2;
    frames = frame (event 1) ∷ frame (event 2) ∷ [];
    encoded_bytes = 80_000;
  });
}

is_sent : send_replay keeping 1 0 2 two_events none ≡ some two_sent
unfolding send_replay replay_loop events_after encode_replay_chunk encode_server_message
is_sent = refl

-- Two events are accepted and replayed to a socket, and the first is deleted.
abbrev short_run : ReplayRun keeping 1 2 (event 2 ∷ []) two_sent.cache
short_run =
    compacts
      (replays (accepts (accepts begins (event 1) refl (omega arith)) (event 2) refl (omega arith))
        1 0 2 (omega arith) (omega arith) (omega arith) (omega arith) two_sent is_sent)
      1 (event 1 ∷ []) (refl, refl) (omega arith)

-- A third event is accepted before a socket is sent the events up to the second, from the cache.
abbrev longer_run : ReplayRun keeping 0 3 (event 1 ∷ event 2 ∷ event 3 ∷ []) two_sent.cache
longer_run =
    accepts
      (replays (accepts (accepts begins (event 1) refl (omega arith)) (event 2) refl (omega arith))
        1 0 2 (omega arith) (omega arith) (omega arith) (omega arith) two_sent is_sent)
      (event 3) refl (omega arith)

ReplayRun-Replays_example :
    (p : Replay keeping) × (send_replay keeping 1 0 2
        (event 1 ∷ event 2 ∷ event 3 ∷ [])
        two_sent.cache
      ≡ some p)
    × Replays keeping 0 0 2 3 (event 1 ∷ event 2 ∷ event 3 ∷ []) p
ReplayRun-Replays_example =
    ReplayRun-Replays keeping longer_run 1 0 2 (omega arith) (omega arith) (omega arith)
      (omega arith)

-- One more event is accepted before the replay.
abbrev now_accepted : List StoredEvent
now_accepted = room.events ++ event 5 ∷ []

join_recovery_lem_example :
    (r : Recovery × List SnapshotReadTicket × Option (Replay keeping)) × (join_recovery kept keeping
        1 request hash 5_000 room [] now_accepted none
      ≡ some r)
    × Recovers 0 4 1 r.0
    × IsReplayed keeping 0 5 now_accepted r.0 r.2
join_recovery_lem_example =
    join_recovery_lem kept hash 5_000 [] refl 4 room room-SnapshotInv true room_is_active request
      keeping 1 5 now_accepted (refl, (refl, (refl, (refl, (refl, refl))))) (omega arith)
      (omega arith) (omega arith, (omega arith, (omega arith, (omega arith, (omega arith, tt)))))
      none tt
