-- ===== src/Protocol/Server/Valid.antt =====
-- packages/protocol/src/types.ts and server-codec.ts: the messages that a room may send.
use echa.Prelude.{ℕ, ◌*◌, ◌≤◌, ◌≡◌, ◌⊎◌, String, true, Option, none, some, All, length}
use echa.Protocol.Limits.{
  canvas_width, canvas_height, max_room_connections, max_chat_message_characters, max_chat_messages,
}
use echa.Protocol.Messages.{AcceptedStrokeEvent}
use echa.Protocol.Value.{max_safe_integer}
use echa.Protocol.Value.Text.{is_identifier, is_hash, is_sized, is_counted}
use echa.Protocol.Wire.RoundTrip.{IsValidRoomEvent}
use echa.Protocol.Server.{
  PresenceMember, RemoteCursor, hidden, visible, ChatProfile, no_profile, profile, ChatMessage,
  PublicSnapshotManifest, RoomUpdate, to_waiting, to_suspended, to_active, to_idle, to_closing,
  ServerMessage, accepted, ready, reject, replay, snapshot, presence, cursor, chat_message,
  chat_history, room_activity, room_time, room_removed, room_updated, room_closed,
}
use echa.Protocol.Server.Parser.{max_object_bytes, is_display_name, is_avatar_url}

abbrev pub IsSafe : ℕ → Type 0
IsSafe n = n ≤ max_safe_integer

-- A number that counts from 1.
abbrev pub IsOrdinal : ℕ → Type 0
IsOrdinal n = (1 ≤ n) × (n ≤ max_safe_integer)

abbrev pub IsIdentifier : String → Type 0
IsIdentifier s = is_identifier 8 128 s ≡ true

abbrev pub IsHash : String → Type 0
IsHash s = is_hash 64 s ≡ true

abbrev pub IsName : String → Type 0
IsName s = is_sized 1 128 s ≡ true

abbrev pub IsOptional {ℓ} : {A : Type ℓ} → (A → Type 0) → Option A → Type 0
IsOptional p none = Unit
IsOptional p (some a) = p a

pub record IsAccepted (a : AcceptedStrokeEvent) : Type 0 where
  pub seq : IsOrdinal a.room_seq
  pub actor : IsName a.actor
  pub connection : IsName a.connection_id
  pub at : IsSafe a.accepted_at
  pub event : IsValidRoomEvent a.event

pub record IsManifest (m : PublicSnapshotManifest) : Type 0 where
  pub job : IsIdentifier m.job_id
  pub room : IsIdentifier m.room_id
  pub base : IsSafe m.base_room_seq
  pub generation : IsOrdinal m.generation
  pub bytes : (1 ≤ m.object_bytes) × (m.object_bytes ≤ max_object_bytes)
  pub object_hash : IsHash m.object_hash
  pub rgba_hash : IsHash m.rgba_hash
  pub at : IsSafe m.created_at

abbrev pub IsCursor : RemoteCursor → Type 0
IsCursor hidden = Unit
IsCursor (visible x y) = (x ≤ canvas_width * 1_000) × (y ≤ canvas_height * 1_000)

abbrev pub IsProfile : ChatProfile → Type 0
IsProfile no_profile = Unit
IsProfile (profile name url) =
    IsOptional (λ s. is_display_name s ≡ true) name × IsOptional (λ s. is_avatar_url s ≡ true) url

pub record IsChat (m : ChatMessage) : Type 0 where
  pub id : IsIdentifier m.id
  pub seq : IsOrdinal m.seq
  pub actor : IsName m.actor
  pub profile : IsProfile m.profile
  pub text : is_counted 1 max_chat_message_characters m.text ≡ true
  pub at : IsSafe m.created_at

abbrev pub IsUpdate : RoomUpdate → Type 0
IsUpdate (to_waiting at) = IsSafe at
IsUpdate (to_suspended at) = IsSafe at
IsUpdate (to_active at last) = IsSafe at × IsOptional IsSafe last
IsUpdate (to_idle at last) = IsSafe at × IsOptional IsSafe last
IsUpdate (to_closing id reason at) = IsIdentifier id × IsSafe at

abbrev pub IsLevel : ℕ → Type 0
IsLevel n = (n ≡ 80) ⊎ ((n ≡ 90) ⊎ ((n ≡ 98) ⊎ (n ≡ 100)))

abbrev pub IsWarning : ℕ → Type 0
IsWarning n = (n ≡ 15) ⊎ ((n ≡ 5) ⊎ (n ≡ 1))

abbrev pub IsValidMessage : ServerMessage → Type 0
IsValidMessage (accepted a) = IsAccepted a
IsValidMessage (ready seq) = IsSafe seq
IsValidMessage (reject seq code message) =
    IsOptional IsOrdinal seq × (is_sized 1 256 message ≡ true)
IsValidMessage (replay events) = All IsAccepted events × (length events ≤ 500)
IsValidMessage (snapshot m token at) = IsManifest m × (IsHash token × IsSafe at)
IsValidMessage (presence ms) =
    All (λ (m : PresenceMember). IsName m.actor) ms × (length ms ≤ max_room_connections)
IsValidMessage (cursor actor c) = IsName actor × IsCursor c
IsValidMessage (chat_message m) = IsChat m
IsValidMessage (chat_history ms) = All IsChat ms × (length ms ≤ max_chat_messages)
IsValidMessage (room_activity level events bytes) = IsLevel level × (IsSafe events × IsSafe bytes)
IsValidMessage (room_time minutes ends remaining) =
    IsWarning minutes × (IsSafe ends × (remaining ≤ minutes * 60 * 1_000))
IsValidMessage (room_removed reason id) = IsIdentifier id
IsValidMessage (room_updated u) = IsUpdate u
IsValidMessage (room_closed id reason at) = IsIdentifier id × IsSafe at
