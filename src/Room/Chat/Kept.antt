-- ===== src/Room/Chat/Kept.antt =====
-- apps/realtime/src/drawing-room.ts: which chat messages a room keeps, in which order, and who sent
-- them.
use echa.Prelude.{
  ℕ, zero, suc, ◌≤◌, ◌<◌, String, Bool, true, false, ◌≡◌, inl, inr, refl, ap, none, some, List, [],
  ◌∷◌, find?, delete, update, arith, count, count-delete_le, length, Bool-cases, Option-cases, All,
  count_of_find?-none, count_of_find?,
}
use echa.Protocol.Limits.{chat_rate_burst, chat_rate_per_second, max_chat_messages}
use echa.Room.Tokens.{take_token}
use echa.Room.State.{Connection, ConnectionAttachment, connection_is}
use echa.Room.Chat.{
  ChatMessage, ClientChatMessage, Chat, sent, message_is, expired, newest, prune_chat_messages,
  insert_chat_message, set_chat_rate, accept_chat_message,
}

-- The numbers fall below the bound from one row to the next.
abbrev pub IsNewestFirst : ℕ → List ChatMessage → Type 0
IsNewestFirst bound [] = Unit
IsNewestFirst bound (m ∷ ms) = (m.seq < bound) × IsNewestFirst m.seq ms

pub record ChatInv (s : Chat) : Type 0 where
  pub ids_unique : (id : String) → count (message_is id) s.messages ≤ 1
  pub newest_first : IsNewestFirst (suc s.last_seq) s.messages
  pub few : length s.messages ≤ max_chat_messages

pub IsNewestFirst-weaken :
    (b c : ℕ) (ms : List ChatMessage) → b ≤ c → IsNewestFirst b ms → IsNewestFirst c ms
IsNewestFirst-weaken b c [] k h = tt
IsNewestFirst-weaken b c (m ∷ ms) k h = (omega (arith, h.0), h.1)

pub delete-IsNewestFirst :
    (p : ChatMessage → Bool) (b : ℕ) (ms : List ChatMessage)
    → IsNewestFirst b ms
    → IsNewestFirst b (delete p ms)
delete-IsNewestFirst p b [] h = tt
delete-IsNewestFirst p b (m ∷ ms) h =
    let rest = delete-IsNewestFirst p m.seq ms h.1 in
    elim (Bool-cases (p m)) [
      | inl gone ↦ rw gone (IsNewestFirst-weaken m.seq b (delete p ms) (omega (arith, h.0)) rest)
      | inr kept ↦ rw kept (h.0, rest)
    ]

pub newest-IsNewestFirst :
    (n b : ℕ) (ms : List ChatMessage) → IsNewestFirst b ms → IsNewestFirst b (newest n ms)
newest-IsNewestFirst n b [] h = tt
newest-IsNewestFirst zero b (m ∷ ms) h = tt
newest-IsNewestFirst (suc n) b (m ∷ ms) h = (h.0, newest-IsNewestFirst n m.seq ms h.1)

pub prune-IsNewestFirst :
    (now b : ℕ) (ms : List ChatMessage)
    → IsNewestFirst b ms
    → IsNewestFirst b (prune_chat_messages now ms)
unfolding prune_chat_messages
prune-IsNewestFirst now b ms h =
    newest-IsNewestFirst max_chat_messages b (delete (expired now) ms)
      (delete-IsNewestFirst (expired now) b ms h)

pub count-newest_le :
    (p : ChatMessage → Bool) (n : ℕ) (ms : List ChatMessage) → count p (newest n ms) ≤ count p ms
count-newest_le p n [] = omega arith
count-newest_le p zero (m ∷ ms) = omega arith
count-newest_le p (suc n) (m ∷ ms) = ground (arith, count-newest_le p n ms)

pub count-prune_le :
    (p : ChatMessage → Bool) (now : ℕ) (ms : List ChatMessage)
    → count p (prune_chat_messages now ms) ≤ count p ms
unfolding prune_chat_messages
count-prune_le p now ms = omega (
  arith,
  count-newest_le p max_chat_messages (delete (expired now) ms),
  count-delete_le p (expired now) ms,
)

pub length-newest_le {ℓ} : {A : Type ℓ} (n : ℕ) (ms : List A) → length (newest n ms) ≤ n
length-newest_le n [] = omega arith
length-newest_le zero (m ∷ ms) = omega arith
length-newest_le (suc n) (m ∷ ms) = omega (arith, length-newest_le n ms)

pub length-prune_le :
    (now : ℕ) (ms : List ChatMessage) → length (prune_chat_messages now ms) ≤ max_chat_messages
unfolding prune_chat_messages
length-prune_le now ms = length-newest_le max_chat_messages (delete (expired now) ms)

delete-All : (p : ChatMessage → Bool) (ms : List ChatMessage) → All (λ m. p m ≡ false) (delete p ms)
delete-All p [] = tt
delete-All p (m ∷ ms) = elim (Bool-cases (p m)) [
  | inl gone ↦ rw gone (delete-All p ms)
  | inr kept ↦ rw kept (kept, delete-All p ms)
]

pub newest-All :
    (p : ChatMessage → Bool) (n : ℕ) (ms : List ChatMessage)
    → All (λ m. p m ≡ false) ms
    → All (λ m. p m ≡ false) (newest n ms)
newest-All p n [] h = tt
newest-All p zero (m ∷ ms) h = tt
newest-All p (suc n) (m ∷ ms) h = (h.0, newest-All p n ms h.1)

delete_of_All :
    (p : ChatMessage → Bool) (ms : List ChatMessage) → All (λ m. p m ≡ false) ms → delete p ms ≡ ms
delete_of_All p [] h = refl
delete_of_All p (m ∷ ms) h = rw h.0 (ap (λ r. m ∷ r) (delete_of_All p ms h.1))

pub prune-All :
    (now : ℕ) (ms : List ChatMessage)
    → All (λ m. expired now m ≡ false) (prune_chat_messages now ms)
unfolding prune_chat_messages
prune-All now ms =
    newest-All (expired now) max_chat_messages (delete (expired now) ms)
      (delete-All (expired now) ms)

pub newest-newest {ℓ} :
    {A : Type ℓ} (k n : ℕ) (ms : List A) → k ≤ n → newest k (newest n ms) ≡ newest k ms
newest-newest k n [] h = refl
newest-newest zero zero (m ∷ ms) h = refl
newest-newest (suc k) zero (m ∷ ms) h = absurd (let x : ⊥ = omega arith in x)
newest-newest zero (suc n) (m ∷ ms) h = refl
newest-newest (suc k) (suc n) (m ∷ ms) h = ap (λ r. m ∷ r) (newest-newest k n ms (omega arith))

-- The table after a new message: the message, and the newest of the unexpired ones before it.
pub prune-new :
    (now : ℕ) (m : ChatMessage) (ms : List ChatMessage)
    → m.created_at ≡ now
    → prune_chat_messages now (m ∷ prune_chat_messages now ms)
      ≡ m ∷ newest 99 (delete (expired now) ms)
unfolding prune_chat_messages
prune-new now m ms h =
    let fresh : expired now m ≡ false = ground arith in
    let kept = delete_of_All (expired now) (newest max_chat_messages (delete (expired now) ms)) (
      newest-All (expired now) max_chat_messages (delete (expired now) ms)
        (delete-All (expired now) ms)) in
    rw (fresh, kept)
      (ap (λ r. m ∷ r) (newest-newest 99 max_chat_messages (delete (expired now) ms) (omega arith)))

-- An accepted message: its sender's connection may chat, it is the newest of the table after it, it
-- spends a token, and no message with its id was there.
pub record Said (a : ConnectionAttachment) (message : ClientChatMessage) (now : ℕ) (s s' : Chat)
    (m : ChatMessage) : Type 0 where
  pub connection : Connection
  pub found : find? (connection_is a.connection_id) s.connections ≡ some connection
  pub may_chat : connection.can_chat ≡ true
  pub mine : connection.actor ≡ a.actor
  pub new : find? (message_is message.id) s.messages ≡ none
  pub spent :
      s'.connections
      ≡ update
          (connection_is a.connection_id)
          (set_chat_rate
            (take_token chat_rate_burst chat_rate_per_second connection.chat_rate now).0)
          s.connections
  pub had_token :
      (take_token chat_rate_burst chat_rate_per_second connection.chat_rate now).1 ≡ true
  pub message_id : m.id ≡ message.id
  pub text : m.text ≡ message.text
  pub actor : m.actor ≡ a.actor
  pub created : m.created_at ≡ now
  pub numbered : m.seq ≡ suc s.last_seq
  pub last : s'.last_seq ≡ suc s.last_seq
  pub metric : s'.chat_accepted ≡ suc s.chat_accepted
  pub messages : s'.messages ≡ m ∷ newest 99 (delete (expired now) s.messages)

find?-prune :
    (id : String) (now : ℕ) (ms : List ChatMessage)
    → find? (message_is id) ms ≡ none
    → find? (message_is id) (prune_chat_messages now ms) ≡ none
find?-prune id now ms h = elim (Option-cases (find? (message_is id) (prune_chat_messages now ms))) [
  | inl e ↦ e
  | inr (m, e) ↦ absurd (
      let x : ⊥ = omega (
        arith,
        count_of_find?-none (message_is id) ms h,
        count-prune_le (message_is id) now ms,
        count_of_find? (message_is id) (prune_chat_messages now ms) m e,
      ) in
      x)
]

-- The insertion never meets the unique index.
pub accept_lem :
    (c : Connection) (a : ConnectionAttachment) (message : ClientChatMessage) (now : ℕ) (s : Chat)
    → find? (message_is message.id) s.messages ≡ none
    → (s' : Chat) × (m : ChatMessage) × (accept_chat_message c a message now s ≡ some (s', sent m))
      × (s'.connections ≡ s.connections)
      × (m.id ≡ message.id)
      × (m.text ≡ message.text)
      × (m.actor ≡ a.actor)
      × (m.created_at ≡ now)
      × (m.seq ≡ suc s.last_seq)
      × (s'.last_seq ≡ suc s.last_seq)
      × (s'.chat_accepted ≡ suc s.chat_accepted)
      × (s'.messages ≡ m ∷ newest 99 (delete (expired now) s.messages))
unfolding accept_chat_message insert_chat_message
accept_lem c a message now s new =
    let m : ChatMessage = record {
      id = message.id;
      seq = suc s.last_seq;
      actor = a.actor;
      role = a.role;
      display_name = c.display_name;
      avatar_url = c.avatar_url;
      text = message.text;
      created_at = now;
    } in
    let still_new = find?-prune message.id now s.messages new in
    (
      record s {
        messages = prune_chat_messages now (m ∷ prune_chat_messages now s.messages);
        last_seq = suc s.last_seq;
        chat_accepted = suc s.chat_accepted;
      },
      m,
      rw still_new refl,
      refl,
      refl,
      refl,
      refl,
      refl,
      refl,
      refl,
      refl,
      prune-new now m s.messages refl,
    )
