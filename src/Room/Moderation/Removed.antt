-- ===== src/Room/Moderation/Removed.antt =====
-- apps/realtime/src/drawing-room.ts: a member that `moderateMember` removed.
use package.text.Mathlib.TextPositions.{eq_refl}
use echa.Prelude.{
  ℕ, ◌≡◌, refl, ap, ◌∙◌, inl, inr, String, Bool, true, false, ◌&&◌, some, List, [], ◌∷◌, arith,
  if◌then◌else◌, delete, count, length, map, Bool-cases, bind_of,
}
use echa.Protocol.Messages.{RoomStrokeEvent, AcceptedStrokeEvent}
use echa.Protocol.Value.Text.{is_identifier}
use echa.Room.Log.{StrokeLog, wanted, finalize_active_strokes}
use echa.Room.Log.Finalize.{HasUniqueIds, ended_at, finalize_active_strokes_lem}
use echa.Room.State.{RoomLifecycleState, room_lifecycle_state, is_over}
use echa.Room.Tickets.{
  RoomTicketRegistrationRequest, Door, refused, banned, uninitialized, of_actor, is_banned, targets,
  register_room_ticket,
}
use echa.Room.Moderation.{
  MemberAction, kick, room_ban, MemberRoom, ticket_of_actor, hosts, add_ban, remove_member,
  moderate_member, disconnect_service_banned_actor,
}

module _ {ℓ} {A : Type ℓ} where
  none_left : (p : A → Bool) (xs : List A) → count p (delete p xs) ≡ 0
  none_left p [] = refl
  none_left p (x ∷ xs) = ground (arith, none_left p xs)

add_ban_lem :
    (actor : String) (bans : List String) → is_banned actor (add_ban room_ban actor bans) ≡ true
add_ban_lem actor bans = elim (Bool-cases (is_banned actor bans)) [
  | inl there ↦ rw there there
  | inr new ↦ rw new (rw (eq_refl actor) refl)
]

-- A ticket is refused to an actor who is banned.
refused_banned :
    (q : RoomTicketRegistrationRequest) (hash : String) (d : Door) (state : RoomLifecycleState)
    → room_lifecycle_state d.lifecycle ≡ some state
    → is_over state ≡ false
    → is_banned q.actor_id d.bans ≡ true
    → register_room_ticket q hash d
      ≡ (if targets q d.metadata then refused banned else refused uninitialized)
unfolding register_room_ticket
refused_banned q hash d state live open_room out = elim (Bool-cases (targets q d.metadata)) [
  | inl mine ↦ rw (mine, live, open_room, out) refl
  | inr other ↦ rw other refl
]

-- What is left of a member in the room, and of the rest.
pub record Removed (action : MemberAction) (actor : String) (now : ℕ) (s s' : MemberRoom)
    (out : List AcceptedStrokeEvent) : Type 0 where
  pub no_strokes : count (wanted (some actor)) s'.log.strokes ≡ 0
  pub strokes :
      s'.log.strokes ≡ map (λ t. if wanted (some actor) t then ended_at now t else t) s.log.strokes
  pub events : length out ≡ count (wanted (some actor)) s.log.strokes
  pub no_tickets : count (ticket_of_actor actor) s'.door.tickets ≡ 0
  pub no_sockets : count (of_actor actor) s'.door.sockets ≡ 0
  pub kicked : action ≡ kick → s'.door.bans ≡ s.door.bans
  pub kept_out :
      action ≡ room_ban
      → (q : RoomTicketRegistrationRequest) (hash : String) → q.actor_id ≡ actor
      → register_room_ticket q hash s'.door
        ≡ (if targets q s'.door.metadata then refused banned else refused uninitialized)

-- What `finalizeActiveStrokes` and the statements on the other tables leave.
remove_member-Removed :
    (byte_length : RoomStrokeEvent → ℕ) (action : MemberAction) (actor : String) (now : ℕ)
    (s : MemberRoom)
    → HasUniqueIds s.log.strokes
    → (action ≡ room_ban
        → (q : RoomTicketRegistrationRequest) (hash : String) → q.actor_id ≡ actor
        → let d = remove_member action actor s.door in
          register_room_ticket q hash d
          ≡ (if targets q d.metadata then refused banned else refused uninitialized))
    → (l : StrokeLog) × (out : List AcceptedStrokeEvent) × (finalize_active_strokes byte_length
          "server_member_moderation" now
          (some actor)
          s.log
        ≡ some (l, out))
      × Removed action actor now s
          (record s { door = remove_member action actor s.door; log = l })
          out
remove_member-Removed byte_length action actor now s unique kept_out =
    let (l, out, run, rows, none_active, many, metric, numbers, inv, others) =
      finalize_active_strokes_lem byte_length "server_member_moderation" now (some actor) s.log
        unique in
    (
      l,
      out,
      run,
      record {
        no_strokes = none_active;
        strokes = rows;
        events = many;
        no_tickets = none_left (ticket_of_actor actor) s.door.tickets;
        no_sockets = none_left (of_actor actor) s.door.sockets;
        kicked = λ is_kick. ap (λ a. add_ban a actor s.door.bans) is_kick;
        kept_out = kept_out;
      },
    )

-- In a room that is not over and whose strokes have unique keys, a member who is no host is removed.
pub moderate_member_lem :
    (byte_length : RoomStrokeEvent → ℕ) (action : MemberAction) (actor : String) (now : ℕ)
    (s : MemberRoom) (state : RoomLifecycleState)
    → room_lifecycle_state s.door.lifecycle ≡ some state
    → is_over state ≡ false
    → hosts actor s ≡ false
    → HasUniqueIds s.log.strokes
    → (s' : MemberRoom) × (out : List AcceptedStrokeEvent) × (moderate_member byte_length action
          actor now s
        ≡ some (s', out, count (of_actor actor) s.door.sockets))
      × Removed action actor now s s' out
unfolding moderate_member
moderate_member_lem byte_length action actor now s state live open_room no_host unique =
    let (l, out, run, removed) =
      remove_member-Removed byte_length action actor now s unique (λ is_ban q hash is_actor.
        refused_banned q hash (remove_member action actor s.door) state live open_room (
          ap (λ a. is_banned q.actor_id (add_ban a actor s.door.bans)) is_ban
          ∙ ap (λ b. is_banned b (add_ban room_ban actor s.door.bans)) is_actor
          ∙ add_ban_lem actor s.door.bans)) in
    (
      record s { door = remove_member action actor s.door; log = l },
      out,
      bind_of _ live ∙ rw (open_room, no_host) (bind_of _ run),
      removed,
    )

-- An actor who is banned from the service leaves any room as at a kick.
pub disconnect_service_banned_actor_lem :
    (byte_length : RoomStrokeEvent → ℕ) (actor action_id : String) (now : ℕ) (s : MemberRoom)
    → (is_identifier 8 128 actor && is_identifier 8 128 action_id) ≡ true
    → HasUniqueIds s.log.strokes
    → (s' : MemberRoom) × (out : List AcceptedStrokeEvent) × (disconnect_service_banned_actor
          byte_length actor action_id now s
        ≡ some (s', out, count (of_actor actor) s.door.sockets))
      × Removed kick actor now s s' out
unfolding disconnect_service_banned_actor
disconnect_service_banned_actor_lem byte_length actor action_id now s valid unique =
    let (l, out, run, removed) =
      remove_member-Removed byte_length kick actor now s unique
        (λ is_ban. absurd (let z : ⊥ = cc is_ban in z)) in
    (
      record s { door = remove_member kick actor s.door; log = l },
      out,
      rw valid (bind_of _ run),
      removed,
    )
