-- ===== src/Room/Chat.antt =====
-- apps/realtime/src/drawing-room.ts: `persistChatMessage`, `pruneChatMessages` and `readChatHistory`.
-- The rows of `chat_messages` are held newest first, which is the order of `ORDER BY seq DESC`: the
-- key is assigned by AUTOINCREMENT, past every key before it.
pub mod Kept
pub mod Replies
use echa.Prelude.{
  ℕ, zero, suc, ◌+◌, String, Bool, true, false, not, ◌&&◌, ◌||◌, Option, none, some, List, [], ◌∷◌,
  ◌++◌, leb, if◌then◌else◌, is_some, find?, delete, update, same, ◌>>=◌,
}
use echa.Protocol.Limits.{
  chat_rate_burst, chat_rate_per_second, max_chat_messages, chat_message_ttl_ms,
}
use echa.Protocol.Messages.{
  RoomRole, same_role, RejectCode, unauthorized, role_forbidden, duplicate, rate_limited,
}
use echa.Room.Tokens.{Bucket, take_token}
use echa.Room.State.{Connection, ConnectionAttachment, connection_is}

pub record ChatMessage : Type 0 where
  pub id : String
  pub seq : ℕ
  pub actor : String
  pub role : RoomRole
  pub display_name : Option String
  pub avatar_url : Option String
  pub text : String
  pub created_at : ℕ

-- `ClientChatMessage`.
pub record ClientChatMessage : Type 0 where
  pub id : String
  pub text : String

-- The tables `connections` and `chat_messages`, the last key assigned and the metric.
pub record Chat : Type 0 where
  pub connections : List Connection
  pub messages : List ChatMessage
  pub last_seq : ℕ
  pub chat_accepted : ℕ

pub data ChatReply : Type 0 where
  sent : ChatMessage → ChatReply
  refused : RejectCode → ChatReply

abbrev pub message_is : String → ChatMessage → Bool
message_is id m = same m.id id

-- `created_at <= now - chatMessageTtlMs`.
abbrev pub expired : ℕ → ChatMessage → Bool
expired now m = leb (m.created_at + chat_message_ttl_ms) now

-- The rows up to an `OFFSET`.
abbrev pub newest {ℓ} : {A : Type ℓ} → ℕ → List A → List A
newest n [] = []
newest zero (x ∷ xs) = []
newest (suc n) (x ∷ xs) = x ∷ newest n xs

unfoldable pub prune_chat_messages : ℕ → List ChatMessage → List ChatMessage
prune_chat_messages now ms = newest max_chat_messages (delete (expired now) ms)

-- `INSERT INTO chat_messages` under the unique `message_id`.
unfoldable pub insert_chat_message : ChatMessage → List ChatMessage → Option (List ChatMessage)
insert_chat_message m ms = if is_some (find? (message_is m.id) ms) then none else some (m ∷ ms)

abbrev pub set_chat_rate : Bucket → Connection → Connection
set_chat_rate b c = record c { chat_rate = b }

abbrev pub update_rate : String → Bucket → Chat → Chat
update_rate id b s = record s {
  connections = update (connection_is id) (set_chat_rate b) s.connections;
}

-- From the insertion on, with a prune before and after it.
unfoldable pub accept_chat_message :
    Connection → ConnectionAttachment → ClientChatMessage → ℕ → Chat → Option (Chat × ChatReply)
unfolding prune_chat_messages insert_chat_message
accept_chat_message c a message now s = do
  let m : ChatMessage = record {
    id = message.id;
    seq = suc s.last_seq;
    actor = a.actor;
    role = a.role;
    display_name = c.display_name;
    avatar_url = c.avatar_url;
    text = message.text;
    created_at = now;
  }
  ms ← insert_chat_message m (prune_chat_messages now s.messages)
  some (
    record s {
      messages = prune_chat_messages now ms;
      last_seq = suc s.last_seq;
      chat_accepted = suc s.chat_accepted;
    },
    sent m,
  )

-- The checks that follow the read of the connection.
unfoldable pub persist_chat_on :
    Connection → ConnectionAttachment → ClientChatMessage → ℕ → Chat → Option (Chat × ChatReply)
unfolding accept_chat_message
persist_chat_on c a message now s =
    if not (same c.actor a.actor) || not (same_role c.role a.role)
    then some (s, refused unauthorized)
    else if not c.can_chat
    then some (s, refused role_forbidden)
    else if is_some (find? (message_is message.id) s.messages)
    then some (s, refused duplicate)
    else let (bucket, has_token) =
        take_token chat_rate_burst chat_rate_per_second c.chat_rate now in
      let s' = update_rate a.connection_id bucket s in
      if has_token then accept_chat_message c a message now s' else some (s', refused rate_limited)

unfoldable pub persist_chat_message :
    ConnectionAttachment → ClientChatMessage → ℕ → Chat → Option (Chat × ChatReply)
unfolding persist_chat_on
persist_chat_message a message now s = elim (find? (connection_is a.connection_id) s.connections) [
  | none ↦ some (s, refused unauthorized)
  | some c ↦ persist_chat_on c a message now s
]

abbrev pub reverse {ℓ} : {A : Type ℓ} → List A → List A
reverse [] = []
reverse (x ∷ xs) = reverse xs ++ x ∷ []

-- The history for a new connection, oldest first.
unfoldable pub read_chat_history : ℕ → Chat → Chat × List ChatMessage
unfolding prune_chat_messages
read_chat_history now s =
    let ms = prune_chat_messages now s.messages in
    (record s { messages = ms }, reverse (newest max_chat_messages ms))
