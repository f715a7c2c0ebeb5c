-- ===== src/Protocol/Server/RoundTrip.antt =====
-- packages/protocol/src/server-codec.ts: the server's messages there and back.
use echa.Prelude.{
  leb_of_le, ℕ, ◌≡◌, refl, ap, ◌∙◌, String, Option, none, some, List, arith, All, map, bind_of,
}
use echa.Protocol.Messages.{RejectCode, AcceptedStrokeEvent}
use echa.Protocol.Value.{to_list, of_list}
use echa.Protocol.Value.Read.{whole-int}
use echa.Protocol.Wire.{to_binary_wire_event}
use echa.Protocol.Wire.RoundTrip.{parse_room_event-to_binary_wire_event}
use echa.Room.State.{RoomCloseReason}
use echa.Protocol.Server.{
  PresenceMember, RemoteCursor, hidden, visible, ChatProfile, no_profile, profile, ChatMessage,
  PublicSnapshotManifest, RemovalReason, RoomUpdate, to_waiting, to_suspended, to_active, to_idle,
  to_closing, ServerMessage, ready, reject, replay, snapshot, presence, cursor, chat_message,
  chat_history, room_activity, room_time, room_removed, room_updated, room_closed,
}
use echa.Protocol.Server.Parser.{parse_profile}
use echa.Protocol.Value.{Fields, get}
use echa.Protocol.Server.Valid.{IsProfile}
use echa.Protocol.Server.Records.{
  chat_end, profile_fields, chat_fields, accepted_with, logical_event, wire_message, message_value,
  member_value, chat_value,
}
use echa.Protocol.Server.Read.{each}
use echa.Protocol.Server.Parser.{
  parse_accepted, parse_member, parse_snapshot, parse_presence, parse_remote_cursor,
  parse_chat_message, parse_chat_message_frame, parse_chat_history, parse_activity, parse_time,
  parse_closed, parse_removed, event_of, parse_event,
}
use echa.Protocol.Server.Codec.{
  parse_updated, parse_ready, parse_reject, parse_replay, parse_server_message,
}
use echa.Protocol.Server.Valid.{IsSafe, IsName, IsAccepted, IsChat, IsUpdate, IsValidMessage}
use echa.Protocol.Server.Inverses.{
  role_back, code_back, reason_back, removal_back, each_back, items_back, map_same,
}

pub accepted_back :
    (a : AcceptedStrokeEvent)
    → IsAccepted a
    → parse_accepted (accepted_with to_binary_wire_event a) ≡ some (accepted_with logical_event a)
unfolding parse_accepted
accepted_back a v =
    let event : parse_event (some (to_binary_wire_event a.event)) ≡ some (logical_event a.event) =
      ap event_of (parse_room_event-to_binary_wire_event a.event v.event) in
    bind_of _ event
    ∙ rw
        (
          whole-int a.room_seq v.seq.1,
          leb_of_le 1 a.room_seq v.seq.0,
          v.actor,
          v.connection,
          whole-int a.accepted_at v.at,
        )
        refl

pub ready_back :
    (seq : ℕ)
    → IsSafe seq
    → parse_server_message (wire_message (ready seq)) ≡ some (message_value (ready seq))
unfolding parse_server_message parse_ready
ready_back seq h = rw (whole-int seq h) refl

member_back : (m : PresenceMember) → IsName m.actor → parse_member (member_value m) ≡ some m
member_back m h = rw (h, role_back m.role) refl

abbrev pub Back : ServerMessage → Type 0
Back m = parse_server_message (wire_message m) ≡ some (message_value m)

pub reject-Back :
    (seq : Option ℕ) (code : RejectCode) (message : String)
    → IsValidMessage (reject seq code message)
    → Back (reject seq code message)
unfolding parse_server_message parse_reject
reject-Back none code message h = rw (code_back code, h.1) refl
reject-Back (some seq) code message h =
    rw (code_back code, h.1, whole-int seq h.0.1, leb_of_le 1 seq h.0.0) refl

each_accepted :
    (events : List AcceptedStrokeEvent)
    → All IsAccepted events
    → each parse_accepted (to_list (of_list (map (accepted_with to_binary_wire_event) events)))
      ≡ some (map (accepted_with logical_event) events)
each_accepted events h =
    each_back parse_accepted (accepted_with to_binary_wire_event) (accepted_with logical_event)
      IsAccepted accepted_back events h

pub replay-Back :
    (events : List AcceptedStrokeEvent) → IsValidMessage (replay events) → Back (replay events)
unfolding parse_server_message parse_replay
replay-Back events h =
    bind_of _ (items_back 500 (accepted_with to_binary_wire_event) events h.1)
    ∙ bind_of _ (each_accepted events h.0)

pub snapshot-Back :
    (m : PublicSnapshotManifest) (token : String) (at : ℕ)
    → IsValidMessage (snapshot m token at)
    → Back (snapshot m token at)
unfolding parse_server_message parse_snapshot
snapshot-Back m token at (v, (hashed, safe)) =
    rw
      (
        v.job,
        v.room,
        whole-int m.base_room_seq v.base,
        whole-int m.generation v.generation.1,
        leb_of_le 1 m.generation v.generation.0,
        whole-int m.object_bytes (omega (arith, v.bytes.1)),
        leb_of_le 1 m.object_bytes v.bytes.0,
        leb_of_le m.object_bytes _ v.bytes.1,
        v.object_hash,
        v.rgba_hash,
        whole-int m.created_at v.at,
        hashed,
        whole-int at safe,
      )
      refl

pub presence-Back : (ms : List PresenceMember) → IsValidMessage (presence ms) → Back (presence ms)
unfolding parse_server_message parse_presence
presence-Back ms h =
    bind_of _ (items_back _ member_value ms h.1)
    ∙ bind_of _ (
        each_back parse_member member_value (λ m. m) (λ m. IsName m.actor) member_back ms h.0
        ∙ ap some (map_same ms))

pub cursor-Back :
    (actor : String) (c : RemoteCursor) → IsValidMessage (cursor actor c) → Back (cursor actor c)
unfolding parse_server_message parse_remote_cursor
cursor-Back actor hidden h = rw h.0 refl
cursor-Back actor (visible x y) h =
    rw
      (
        h.0,
        leb_of_le x _ h.1.0,
        leb_of_le y _ h.1.1,
        leb_of_le 0 x (omega arith),
        leb_of_le 0 y (omega arith),
      )
      refl

abbrev pub chat_with : ChatMessage → ChatProfile → ChatMessage
chat_with m p = record m { profile = p }

-- The profile of a message, and what follows it.
profile_back :
    (m : ChatMessage) (p : ChatProfile)
    → IsProfile p
    → parse_profile (chat_fields (chat_with m p)) ≡ some p
profile_back m no_profile v = refl
profile_back m (profile none none) v = refl
profile_back m (profile (some name) none) v = rw v.0 refl
profile_back m (profile none (some url)) v = rw v.1 refl
profile_back m (profile (some name) (some url)) v = rw (v.0, v.1) refl

text_past : (p : ChatProfile) (rest : Fields) → get "text" (profile_fields p rest) ≡ get "text" rest
text_past no_profile rest = refl
text_past (profile name url) rest = refl

at_past :
    (p : ChatProfile) (rest : Fields)
    → get "createdAt" (profile_fields p rest) ≡ get "createdAt" rest
at_past no_profile rest = refl
at_past (profile name url) rest = refl

chat_back : (m : ChatMessage) → IsChat m → parse_chat_message (chat_value m) ≡ some m
unfolding parse_chat_message
chat_back m v =
    bind_of _ (profile_back m m.profile v.profile)
    ∙ rw
        (
          text_past m.profile (chat_end m),
          at_past m.profile (chat_end m),
          v.id,
          whole-int m.seq v.seq.1,
          leb_of_le 1 m.seq v.seq.0,
          v.actor,
          role_back m.role,
          v.text,
          whole-int m.created_at v.at,
        )
        refl

pub chat_message-Back : (m : ChatMessage) → IsChat m → Back (chat_message m)
unfolding parse_server_message parse_chat_message_frame
chat_message-Back m v = bind_of _ (chat_back m v)

pub chat_history-Back :
    (ms : List ChatMessage) → IsValidMessage (chat_history ms) → Back (chat_history ms)
unfolding parse_server_message parse_chat_history
chat_history-Back ms h =
    bind_of _ (items_back _ chat_value ms h.1)
    ∙ bind_of _ (
        each_back parse_chat_message chat_value (λ m. m) IsChat chat_back ms h.0
        ∙ ap some (map_same ms))

pub activity-Back :
    (level events bytes : ℕ)
    → IsValidMessage (room_activity level events bytes)
    → Back (room_activity level events bytes)
unfolding parse_server_message parse_activity
activity-Back level events bytes (known, (e, b)) =
    rw (whole-int events e, whole-int bytes b) (ground arith)

pub time-Back :
    (minutes ends remaining : ℕ)
    → IsValidMessage (room_time minutes ends remaining)
    → Back (room_time minutes ends remaining)
unfolding parse_server_message parse_time
time-Back minutes ends remaining (known, (e, r)) =
    rw (whole-int ends e, whole-int remaining (ground arith)) (ground arith)

pub removed-Back :
    (reason : RemovalReason) (id : String)
    → IsValidMessage (room_removed reason id)
    → Back (room_removed reason id)
unfolding parse_server_message parse_removed
removed-Back reason id h = rw (removal_back reason, h) refl

pub closed-Back :
    (id : String) (reason : RoomCloseReason) (at : ℕ)
    → IsValidMessage (room_closed id reason at)
    → Back (room_closed id reason at)
unfolding parse_server_message parse_closed
closed-Back id reason at h = rw (h.0, reason_back reason, whole-int at h.1) refl

pub updated-Back : (u : RoomUpdate) → IsUpdate u → Back (room_updated u)
unfolding parse_server_message parse_updated
updated-Back (to_waiting at) h = rw (whole-int at h) refl
updated-Back (to_suspended at) h = rw (whole-int at h) refl
updated-Back (to_active at none) h = rw (whole-int at h.0) refl
updated-Back (to_active at (some last)) h = rw (whole-int at h.0, whole-int last h.1) refl
updated-Back (to_idle at none) h = rw (whole-int at h.0) refl
updated-Back (to_idle at (some last)) h = rw (whole-int at h.0, whole-int last h.1) refl
updated-Back (to_closing id reason at) h = rw (h.0, reason_back reason, whole-int at h.1) refl
