-- ===== src/Room/Tickets/Capacity.antt =====
-- apps/realtime/src/drawing-room.ts: the places of a room, while requests wait between their test
-- (`connectionCapacityError`) and the acceptance of their sockets: `fetch` may await a snapshot offer
-- there.
use echa.Prelude.{
  suc, ◌+◌, ◌-◌, ◌≤◌, String, Bool, true, not, ◌≡◌, refl, ap, sym, ◌∙◌, none, some, List, [], ◌∷◌,
  select, count, delete, length, arith, ℕ, ◌++◌, ◌<◌,
}
use echa.Protocol.Limits.{max_room_connections}
use echa.Protocol.Messages.{RoomRole, host, participant, viewer, is_viewer}
use echa.Room.State.{ConnectionAttachment}
use echa.Room.Tickets.{
  RoomMetadata, of_actor, draws, views, capacity_test, connection_capacity_error, replace_sockets,
}
use echa.Room.Tickets.Waiting.{
  among, masked, Fits, admits-Fits, accepts-Fits, abandons-Fits, closes-Fits, Fits-count,
}

count-select-delete :
    (p q : ConnectionAttachment → Bool) (xs : List ConnectionAttachment)
    → count p (select q xs) + count p (delete q xs) ≡ count p xs
count-select-delete p q [] = refl
count-select-delete p q (x ∷ xs) = ground (arith, count-select-delete p q xs)

length-select-delete :
    (q : ConnectionAttachment → Bool) (xs : List ConnectionAttachment)
    → length (select q xs) + length (delete q xs) ≡ length xs
length-select-delete q [] = refl
length-select-delete q (x ∷ xs) = ground (arith, length-select-delete q xs)

count-roles : (xs : List ConnectionAttachment) → count draws xs + count views xs ≡ length xs
count-roles [] = refl
count-roles (x ∷ xs) = ground (arith, count-roles xs)

-- The numbers that the tests see are those of the sockets that stay.
error-test :
    (m : RoomMetadata) (actor : String) (role : RoomRole) (sockets : List ConnectionAttachment)
    → let left = delete (of_actor actor) sockets in
      connection_capacity_error (some m) actor role true sockets
      ≡ capacity_test m.participant_limit m.viewer_limit
          (length left)
          (count draws left)
          (count views left)
          role
unfolding connection_capacity_error
error-test m actor role sockets =
    let own = select (of_actor actor) sockets in
    let left = delete (of_actor actor) sockets in
    let total : length sockets - length own ≡ length left =
      omega (arith, length-select-delete (of_actor actor) sockets) in
    let drawing : count draws sockets - count draws own ≡ count draws left =
      omega (arith, count-select-delete draws (of_actor actor) sockets) in
    let viewing : count views sockets - (length own - count draws own) ≡ count views left =
      omega (arith, count-select-delete views (of_actor actor) sockets, count-roles own) in
    let test = capacity_test m.participant_limit m.viewer_limit in
    ap
      (λ n.
        test n (count draws sockets - count draws own)
          (count views sockets - (length own - count draws own)) role)
      total
    ∙ ap (λ n. test (length left) n (count views sockets - (length own - count draws own)) role)
        drawing
    ∙ ap (λ n. test (length left) (count draws left) n role) viewing

-- The sockets of a room, and the requests that were tested and whose sockets are not accepted yet: at
-- most `k` of them at a time. A request with a ticket is tested, one that waits is accepted or refused
-- after all, sockets close.
pub data Joining (m : RoomMetadata) (k : ℕ)
    : (waiting sockets : List ConnectionAttachment) → Type 0 where
  empty : Joining m k [] []
  admits :
      (s : ConnectionAttachment) {waiting sockets : List ConnectionAttachment}
      → Joining m k waiting sockets
      → connection_capacity_error (some m) s.actor s.role true sockets ≡ none
      → suc (length waiting) ≤ k
      → Joining m k (s ∷ waiting) sockets
  accepts :
      (s : ConnectionAttachment) (before after : List ConnectionAttachment)
      {sockets : List ConnectionAttachment}
      → Joining m k (before ++ s ∷ after) sockets
      → Joining m k (before ++ after) (replace_sockets s sockets)
  abandons :
      (s : ConnectionAttachment) (before after : List ConnectionAttachment)
      {sockets : List ConnectionAttachment}
      → Joining m k (before ++ s ∷ after) sockets
      → Joining m k (before ++ after) sockets
  closes :
      (q : ConnectionAttachment → Bool) {waiting sockets : List ConnectionAttachment}
      → Joining m k waiting sockets
      → Joining m k waiting (delete q sockets)

module _ (m : RoomMetadata) (p : ConnectionAttachment → Bool) (limit k : ℕ) (some_place : 1 ≤ k)
    (tested : (s : ConnectionAttachment) (sockets : List ConnectionAttachment)
      → connection_capacity_error (some m) s.actor s.role true sockets ≡ none
      → p s ≡ true
      → count p (delete (of_actor s.actor) sockets) < limit) where
  Joining-Fits :
      {waiting sockets : List ConnectionAttachment}
      → Joining m k waiting sockets
      → Fits p limit k waiting sockets
  Joining-Fits empty = none_waits
    where
      none_waits :
          (bs : List Bool)
          → count p (delete (among (masked bs [])) []) + count p (masked bs []) < limit + k
      none_waits [] = omega (arith, some_place)
      none_waits (b ∷ bs) = omega (arith, some_place)
  Joining-Fits (admits s {waiting} {sockets} before free few) =
      admits-Fits p limit k s waiting sockets few (tested s sockets free) (Joining-Fits before)
  Joining-Fits (accepts s before after {sockets} run) =
      accepts-Fits p limit k s before after sockets (Joining-Fits run)
  Joining-Fits (abandons s before after {sockets} run) =
      abandons-Fits p limit k s before after sockets (Joining-Fits run)
  Joining-Fits (closes q {waiting} {sockets} run) =
      closes-Fits p limit k q waiting sockets (Joining-Fits run)

passed :
    (m : RoomMetadata) (role : RoomRole) (n d v : ℕ)
    → capacity_test m.participant_limit m.viewer_limit n d v role ≡ none
    → (n < max_room_connections)
      × (not (is_viewer role) ≡ true → d < m.participant_limit)
      × (is_viewer role ≡ true → v < m.viewer_limit)
unfolding capacity_test
passed m host n d v h = (ground arith, λ _. ground arith, λ w. ground (arith, w))
passed m participant n d v h = (ground arith, λ _. ground arith, λ w. ground (arith, w))
passed m viewer n d v h = (ground arith, λ w. ground (arith, w), λ _. ground arith)

count-all : (xs : List ConnectionAttachment) → count (λ x. true) xs ≡ length xs
count-all [] = refl
count-all (x ∷ xs) = omega (arith, count-all xs)

-- While at most `k` requests at a time, and one at least, are between their test and the acceptance of
-- their socket, whatever the tests, the acceptances and refusals of those that wait and the closings,
-- the sockets of a room with metadata, joined by tickets, are at most `k - 1` more than each of its
-- limits: of all, of those that draw and of the viewers. With one request at a time the limits hold.
pub overrun_bounded :
    (m : RoomMetadata) (k : ℕ) {waiting sockets : List ConnectionAttachment}
    → 1 ≤ k
    → Joining m k waiting sockets
    → (length sockets < max_room_connections + k)
      × (count draws sockets < m.participant_limit + k)
      × (count views sockets < m.viewer_limit + k)
overrun_bounded m k {waiting} {sockets} some_place run =
    let result =
      λ (s : ConnectionAttachment) (xs : List ConnectionAttachment)
          (free : connection_capacity_error (some m) s.actor s.role true xs ≡ none).
        passed m s.role _ _ _ (sym (error-test m s.actor s.role xs) ∙ free) in
    let all =
      Fits-count (λ x. true) max_room_connections k waiting sockets
        (Joining-Fits m (λ x. true) max_room_connections k some_place
          (λ s xs free _.
            omega (arith, (result s xs free).0, count-all (delete (of_actor s.actor) xs)))
          run) in
    let drawing = Fits-count draws m.participant_limit k waiting sockets (
      Joining-Fits m draws m.participant_limit k some_place (λ s xs free. (result s xs free).1)
        run) in
    let viewing =
      Fits-count views m.viewer_limit k waiting sockets (
        Joining-Fits m views m.viewer_limit k some_place (λ s xs free. (result s xs free).2) run) in
    (omega (arith, all, count-all sockets), drawing, viewing)
