-- ===== src/Room/Tests/Talk.antt =====
-- apps/realtime/src/drawing-room.ts: a message, a few cursors and a ticket in a small room.
use echa.Prelude.{◌≡◌, refl, none, some, List, [], ◌∷◌, ◌++◌, arith}
use echa.Protocol.Messages.{host}
use echa.Room.State.{room_lifecycle_state}
use echa.Room.Tokens.{take_token}
use echa.Room.Chat.{
  ChatMessage, ClientChatMessage, Chat, ChatReply, sent, prune_chat_messages, insert_chat_message,
  accept_chat_message, persist_chat_on, persist_chat_message, read_chat_history,
}
use echa.Room.Chat.Kept.{ChatInv}
use echa.Room.Chat.Replies.{
  Answer, persist_chat_message_lem, persist_chat_message-ChatInv,
  persist_chat_message-read_chat_history,
}
use echa.Room.Cursor.{consume_cursor_rate_token, cursors_sent}
use echa.Room.Tickets.{
  capacity_test, connection_capacity_error, register_room_ticket, consume_room_ticket,
}
use echa.Room.Tests.{ann, ann_socket}

runs : Unit {0}
unfolding prune_chat_messages insert_chat_message accept_chat_message persist_chat_on
    persist_chat_message read_chat_history take_token consume_cursor_rate_token cursors_sent
    capacity_test connection_capacity_error register_room_ticket consume_room_ticket
    room_lifecycle_state
runs = tt

abbrev quiet_chat : Chat
quiet_chat = record { connections = ann ∷ []; messages = []; last_seq = 0; chat_accepted = 0 }

abbrev hello : ClientChatMessage
hello = record { id = "message-one"; text = "hello" }

abbrev said : ChatMessage
said = record {
  id = "message-one";
  seq = 1;
  actor = "ann";
  role = host;
  display_name = none;
  avatar_url = none;
  text = "hello";
  created_at = 2_000;
}

abbrev chat_after : Chat
chat_after = record {
  connections = record ann { chat_rate = record { tokens = 4_000; updated_at = 2_000 } } ∷ [];
  messages = said ∷ [];
  last_seq = 1;
  chat_accepted = 1;
}

said_first : persist_chat_message ann_socket hello 2_000 quiet_chat ≡ some (chat_after, sent said)
unfolding runs
said_first = refl

quiet_chat-ChatInv : ChatInv quiet_chat
quiet_chat-ChatInv = record { ids_unique = λ id. omega arith; newest_first = tt; few = omega arith }

persist_chat_message_example :
    (s' : Chat) × (reply : ChatReply) × (persist_chat_message ann_socket hello 2_000 quiet_chat
      ≡ some (s', reply))
    × Answer ann_socket hello 2_000 quiet_chat s' reply
persist_chat_message_example = persist_chat_message_lem ann_socket hello 2_000 quiet_chat

persist_chat_message-ChatInv_example : ChatInv chat_after
persist_chat_message-ChatInv_example =
    persist_chat_message-ChatInv ann_socket hello 2_000 quiet_chat quiet_chat-ChatInv said_first

persist_chat_message-read_chat_history_example :
    (before : List ChatMessage) × ((read_chat_history 2_000 chat_after).1 ≡ before ++ said ∷ [])
    × (said.id ≡ hello.id)
    × (said.text ≡ hello.text)
    × (said.actor ≡ "ann")
persist_chat_message-read_chat_history_example =
    persist_chat_message-read_chat_history ann_socket hello 2_000 quiet_chat said_first
