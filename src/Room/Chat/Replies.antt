-- ===== src/Room/Chat/Replies.antt =====
-- apps/realtime/src/drawing-room.ts: how `persistChatMessage` answers, and what `readChatHistory`
-- returns afterwards.
use echa.Prelude.{
  ℕ, suc, ◌≤◌, ◌<◌, false, not, ◌||◌, ◌≡◌, inl, inr, refl, Option, some, List, [], ◌∷◌, ◌++◌, find?,
  delete, same, arith, count-delete_le, length, Bool-cases, Option-cases, eq_iff, All,
  count_of_find?-none, length-append,
}
use echa.Protocol.Limits.{chat_rate_burst, chat_rate_per_second, max_chat_messages}
use echa.Protocol.Messages.{same_role, unauthorized, role_forbidden, duplicate, rate_limited}
use echa.Room.Tokens.{take_token}
use echa.Room.State.{Connection, ConnectionAttachment, connection_is}
use echa.Room.Chat.{
  ChatMessage, ClientChatMessage, Chat, ChatReply, sent, refused, message_is, expired, newest,
  prune_chat_messages, update_rate, persist_chat_on, persist_chat_message, reverse,
  read_chat_history,
}
use echa.Room.Chat.Kept.{
  IsNewestFirst, ChatInv, Said, accept_lem, prune-IsNewestFirst, prune-All, newest-IsNewestFirst,
  newest-All, length-newest_le, delete-IsNewestFirst, count-newest_le,
}

-- A refusal: no message is stored, and at most the connection's bucket is written.
pub record Refused (s s' : Chat) : Type 0 where
  pub messages : s'.messages ≡ s.messages
  pub last : s'.last_seq ≡ s.last_seq
  pub metric : s'.chat_accepted ≡ s.chat_accepted

abbrev pub Answer : ConnectionAttachment → ClientChatMessage → ℕ → Chat → Chat → ChatReply → Type 0
Answer a message now s s' (sent m) = Said a message now s s' m
Answer a message now s s' (refused code) = Refused s s'

unchanged : (s : Chat) → Refused s s
unchanged s = record { messages = refl; last = refl; metric = refl }

Answered : ConnectionAttachment → ClientChatMessage → ℕ → Chat → Option (Chat × ChatReply) → Type 0
Answered a message now s result =
    (s' : Chat) × (reply : ChatReply) × (result ≡ some (s', reply))
    × Answer a message now s s' reply

persist_chat_on_lem :
    (c : Connection) (a : ConnectionAttachment) (message : ClientChatMessage) (now : ℕ) (s : Chat)
    → find? (connection_is a.connection_id) s.connections ≡ some c
    → Answered a message now s (persist_chat_on c a message now s)
unfolding persist_chat_on Answered
persist_chat_on_lem c a message now s found =
    elim (Bool-cases (not (same c.actor a.actor) || not (same_role c.role a.role))) [
      | inl e ↦ (s, refused unauthorized, rw e refl, unchanged s)
      | inr known ↦ elim (Bool-cases c.can_chat) [
        | inr e ↦ (s, refused role_forbidden, ground arith, unchanged s)
        | inl may ↦ elim (Option-cases (find? (message_is message.id) s.messages)) [
          | inr (old, e) ↦ (s, refused duplicate, ground arith, unchanged s)
          | inl new ↦
              let taken = take_token chat_rate_burst chat_rate_per_second c.chat_rate now in
              let s1 = update_rate a.connection_id taken.0 s in
              elim (Bool-cases taken.1) [
                | inr e ↦ (
                  s1,
                  refused rate_limited,
                  ground arith,
                  record { messages = refl; last = refl; metric = refl },
                )
                | inl e ↦
                    let (
                      s2, m, run, connections, id, text, actor, created, numbered, last, metric,
                      messages,
                    ) =
                      accept_lem c a message now s1 new in
                    (
                      s2,
                      sent m,
                      ground (arith, run),
                      record {
                        connection = c;
                        found = found;
                        may_chat = may;
                        mine = ground (arith, eq_iff c.actor a.actor);
                        new = new;
                        spent = connections;
                        had_token = e;
                        message_id = id;
                        text = text;
                        actor = actor;
                        created = created;
                        numbered = numbered;
                        last = last;
                        metric = metric;
                        messages = messages;
                      },
                    )
              ]
        ]
      ]
    ]

-- `persistChatMessage` never throws: it stores the message as the newest one, of a connection of its
-- sender that may chat and under an id that is new, or it refuses it and stores nothing.
pub persist_chat_message_lem :
    (a : ConnectionAttachment) (message : ClientChatMessage) (now : ℕ) (s : Chat)
    → (s' : Chat) × (reply : ChatReply) × (persist_chat_message a message now s ≡ some (s', reply))
      × Answer a message now s s' reply
unfolding persist_chat_message Answered
persist_chat_message_lem a message now s =
    elim (Option-cases (find? (connection_is a.connection_id) s.connections)) [
      | inl e ↦ (s, refused unauthorized, ground arith, unchanged s)
      | inr (c, e) ↦
          let (s', reply, run, answer) = persist_chat_on_lem c a message now s e in
          (s', reply, ground (arith, run), answer)
    ]

Answer-ChatInv :
    (a : ConnectionAttachment) (message : ClientChatMessage) (now : ℕ) (s s' : Chat)
    (reply : ChatReply)
    → ChatInv s
    → Answer a message now s s' reply
    → ChatInv s'
Answer-ChatInv a message now s s' (refused code) inv d = record {
  ids_unique = λ id. rw d.messages (inv.ids_unique id);
  newest_first = rw (d.messages, d.last) inv.newest_first;
  few = rw d.messages inv.few;
}
Answer-ChatInv a message now s s' (sent m) inv d =
    let kept = newest 99 (delete (expired now) s.messages) in
    let gone = count_of_find?-none (message_is message.id) s.messages d.new in
    let below : IsNewestFirst m.seq kept =
      newest-IsNewestFirst 99 m.seq (delete (expired now) s.messages)
        (delete-IsNewestFirst (expired now) m.seq s.messages (rw d.numbered inv.newest_first)) in
    record {
      ids_unique = λ id. rw d.messages (
          ground (
            arith,
            inv.ids_unique id,
            gone,
            count-newest_le (message_is id) 99 (delete (expired now) s.messages),
            count-delete_le (message_is id) (expired now) s.messages,
            eq_iff m.id id,
            d.message_id,
          ));
      newest_first = rw (d.messages, d.last) (omega (arith, d.numbered), below);
      few = rw d.messages (omega (arith, length-newest_le 99 (delete (expired now) s.messages)));
    }

-- `persistChatMessage` keeps the table of messages: unique ids, ascending numbers, at most 100 rows.
pub persist_chat_message-ChatInv :
    (a : ConnectionAttachment) (message : ClientChatMessage) (now : ℕ) (s : Chat) {s' : Chat}
    {reply : ChatReply}
    → ChatInv s
    → persist_chat_message a message now s ≡ some (s', reply)
    → ChatInv s'
persist_chat_message-ChatInv a message now s {s'} inv h =
    let (s1, reply1, run, answer) = persist_chat_message_lem a message now s in
    let eq : s1 ≡ s' = ground arith in
    rw eq at (Answer-ChatInv a message now s s1 reply1 inv answer)

-- Numbers that rise from `lo` and stay below `hi`.
abbrev pub IsOldestFirst : ℕ → ℕ → List ChatMessage → Type 0
IsOldestFirst lo hi [] = Unit
IsOldestFirst lo hi (m ∷ ms) = (lo ≤ m.seq) × (m.seq < hi) × IsOldestFirst (suc m.seq) hi ms

IsOldestFirst-append :
    (lo hi : ℕ) (ms : List ChatMessage) (m : ChatMessage)
    → IsOldestFirst lo m.seq ms
    → lo ≤ m.seq
    → m.seq < hi
    → IsOldestFirst lo hi (ms ++ m ∷ [])
IsOldestFirst-append lo hi [] m h k l = (k, l, tt)
IsOldestFirst-append lo hi (x ∷ xs) m h k l =
    (h.0, omega (arith, h.1), IsOldestFirst-append (suc x.seq) hi xs m h.2 (omega (arith, h.1)) l)

reverse-IsOldestFirst :
    (hi : ℕ) (ms : List ChatMessage) → IsNewestFirst hi ms → IsOldestFirst 0 hi (reverse ms)
reverse-IsOldestFirst hi [] h = tt
reverse-IsOldestFirst hi (m ∷ ms) h =
    IsOldestFirst-append 0 hi (reverse ms) m (reverse-IsOldestFirst m.seq ms h.1) (omega arith) h.0

length-reverse {ℓ} : {A : Type ℓ} (ms : List A) → length (reverse ms) ≡ length ms
length-reverse [] = refl
length-reverse (m ∷ ms) = omega (arith, length-append (reverse ms) (m ∷ []), length-reverse ms)

All-append :
    (P : ChatMessage → Type 0) (ms : List ChatMessage) (m : ChatMessage)
    → All P ms
    → P m
    → All P (ms ++ m ∷ [])
All-append P [] m h k = (k, tt)
All-append P (x ∷ xs) m h k = (h.0, All-append P xs m h.1 k)

reverse-All : (P : ChatMessage → Type 0) (ms : List ChatMessage) → All P ms → All P (reverse ms)
reverse-All P [] h = tt
reverse-All P (m ∷ ms) h = All-append P (reverse ms) m (reverse-All P ms h.1) h.0

-- The history of a consistent table: at most 100 messages, none of them expired, oldest first.
read_chat_history_lem :
    (now : ℕ) (s : Chat)
    → ChatInv s
    → IsOldestFirst 0 (suc s.last_seq) (read_chat_history now s).1
      × (length (read_chat_history now s).1 ≤ max_chat_messages)
      × All (λ m. expired now m ≡ false) (read_chat_history now s).1
unfolding read_chat_history
read_chat_history_lem now s inv =
    let ms = prune_chat_messages now s.messages in
    (
      reverse-IsOldestFirst (suc s.last_seq) (newest max_chat_messages ms) (
          newest-IsNewestFirst max_chat_messages (suc s.last_seq) ms
            (prune-IsNewestFirst now (suc s.last_seq) s.messages inv.newest_first)),
      omega (
        arith,
        length-reverse (newest max_chat_messages ms),
        length-newest_le max_chat_messages ms,
      ),
      reverse-All (λ m. expired now m ≡ false) (newest max_chat_messages ms)
          (newest-All (expired now) max_chat_messages ms (prune-All now s.messages)),
    )

-- A message that was accepted is the last one of the history read at its time.
pub persist_chat_message-read_chat_history :
    (a : ConnectionAttachment) (message : ClientChatMessage) (now : ℕ) (s : Chat) {s' : Chat}
    {m : ChatMessage}
    → persist_chat_message a message now s ≡ some (s', sent m)
    → (before : List ChatMessage) × ((read_chat_history now s').1 ≡ before ++ m ∷ [])
      × (m.id ≡ message.id)
      × (m.text ≡ message.text)
      × (m.actor ≡ a.actor)
unfolding read_chat_history prune_chat_messages
persist_chat_message-read_chat_history a message now s {s'} {m} h =
    let (s1, reply, run, answer) = persist_chat_message_lem a message now s in
    let same_state : s1 ≡ s' = ground arith in
    let same_reply : reply ≡ sent m = ground arith in
    let d : Said a message now s s' m = rw same_state at (rw same_reply at answer) in
    let fresh : expired now m ≡ false = ground (arith, d.created) in
    (
      reverse (
          newest 99
            (newest 99 (delete (expired now) (newest 99 (delete (expired now) s.messages))))),
      rw d.messages (rw fresh refl),
      d.message_id,
      d.text,
      d.actor,
    )
