-- ===== src/Room/Tickets/Once.antt =====
-- apps/realtime/src/drawing-room.ts: a ticket from its registration on.
use echa.Prelude.{
  ℕ, ◌≤◌, ◌<◌, String, true, false, not, ◌&&◌, ◌≡◌, ap, none, some, List, [], ◌∷◌, leb, is_some,
  find?, delete, update, arith, Option-cases, Bool-cases, inl, inr, eq_iff,
}
use echa.Room.State.{RoomLifecycleState, room_lifecycle_state, is_over}
use echa.Room.Tickets.{
  RoomTicket, RoomTicketRegistrationRequest, Door, registered, ticket_is, ticket_of, targets,
  is_banned, usable, connection_capacity_error, insert_ticket, register_room_ticket,
  consume_room_ticket,
}

-- The row that a search finds after the update of the unused rows under its key.
find?-used :
    (hash : String) (now : ℕ) (tickets : List RoomTicket) (t : RoomTicket)
    → find? (ticket_is hash) tickets ≡ some t
    → t.consumed_at ≡ none
    → find? (ticket_is hash) (
        update
          (λ x. ticket_is hash x && not (is_some x.consumed_at))
          (λ x. record x { consumed_at = some now })
          tickets)
      ≡ some (record t { consumed_at = some now })
find?-used hash now [] t h k = cc
find?-used hash now (x ∷ xs) t h k = elim (Bool-cases (ticket_is hash x)) [
  | inl here ↦ ground arith
  | inr away ↦ ground (arith, find?-used hash now xs t)
]

-- A ticket that is consumed was neither used nor expired, and no later call consumes it again.
pub consume_room_ticket_once :
    (hash : String) (now later : ℕ) (tickets : List RoomTicket) {tickets' : List RoomTicket}
    {t : RoomTicket}
    → consume_room_ticket hash now tickets ≡ (tickets', some t)
    → (t.consumed_at ≡ none)
      × (now < t.expires_at)
      × (consume_room_ticket hash later tickets' ≡ (tickets', none))
unfolding consume_room_ticket
consume_room_ticket_once hash now later tickets {tickets'} {t} h =
    elim (Option-cases (find? (ticket_is hash) tickets)) [
      | inl e ↦ absurd (let x : ⊥ = ground arith in x)
      | inr (s, e) ↦ elim (Bool-cases (usable now s)) [
        | inr stale ↦ absurd (let x : ⊥ = ground arith in x)
        | inl fresh ↦
            let unused : s.consumed_at ≡ none = elim (Option-cases s.consumed_at) [
              | inl u ↦ u
              | inr (at, u) ↦ absurd (let x : ⊥ = ground arith in x)
            ] in
            let is_t : s ≡ t = ground arith in
            let table : update (λ x. ticket_is hash x && not (is_some x.consumed_at))
                  (λ x. record x { consumed_at = some now }) tickets
                ≡ tickets' =
              ground arith in
            let again = rw table at (find?-used hash now tickets s e unused) in
            (rw is_t at unused, ground arith, ground (arith, again))
      ]
    ]

-- What a registration found, and did.
pub record Issued (q : RoomTicketRegistrationRequest) (hash : String) (d d' : Door) : Type 0 where
  pub target : targets q d.metadata ≡ true
  pub state : RoomLifecycleState
  pub read : room_lifecycle_state d.lifecycle ≡ some state
  pub lasting : is_over state ≡ false
  pub welcome : is_banned q.actor_id d.bans ≡ false
  pub place : connection_capacity_error d.metadata q.actor_id q.role true d.sockets ≡ none
  pub kept : d' ≡ record d {
    tickets =
        ticket_of q hash ∷ delete (λ (t : RoomTicket). leb t.expires_at q.issued_at) d.tickets;
  }

insert_ticket-kept :
    (q : RoomTicketRegistrationRequest) (hash : String) (d : Door) {d' : Door}
    → insert_ticket q hash d ≡ registered d'
    → d' ≡ record d {
      tickets =
          ticket_of q hash ∷ delete (λ (t : RoomTicket). leb t.expires_at q.issued_at) d.tickets;
    }
insert_ticket-kept q hash d h = ground arith

register_room_ticket_lem :
    (q : RoomTicketRegistrationRequest) (hash : String) (d : Door) {d' : Door}
    → register_room_ticket q hash d ≡ registered d'
    → Issued q hash d d'
unfolding register_room_ticket
register_room_ticket_lem q hash d {d'} h = elim (Bool-cases (targets q d.metadata)) [
  | inr e ↦ absurd (let x : ⊥ = ground arith in x)
  | inl target ↦ elim (Option-cases (room_lifecycle_state d.lifecycle)) [
    | inl e ↦ absurd (let x : ⊥ = ground arith in x)
    | inr (state, read) ↦ elim (Bool-cases (is_over state)) [
      | inl e ↦ absurd (let x : ⊥ = ground arith in x)
      | inr lasting ↦ elim (Bool-cases (is_banned q.actor_id d.bans)) [
        | inl e ↦ absurd (let x : ⊥ = ground arith in x)
        | inr welcome ↦
            elim (Option-cases
              (connection_capacity_error d.metadata q.actor_id q.role true d.sockets)) [
                | inr (code, e) ↦ absurd (let x : ⊥ = ground arith in x)
                | inl place ↦
                    let inserted : insert_ticket q hash d ≡ registered d' = ground arith in
                    record {
                      target = target;
                      state = state;
                      read = read;
                      lasting = lasting;
                      welcome = welcome;
                      place = place;
                      kept = insert_ticket-kept q hash d inserted;
                    }
              ]
      ]
    ]
  ]
]

used_table : RoomTicketRegistrationRequest → String → ℕ → List RoomTicket → List RoomTicket
used_table q hash now rest =
    update (λ (x : RoomTicket). ticket_is hash x && not (is_some x.consumed_at))
      (λ x. record x { consumed_at = some now }) (ticket_of q hash ∷ rest)

consume_first :
    (q : RoomTicketRegistrationRequest) (hash : String) (now : ℕ) (rest : List RoomTicket)
    → now < q.expires_at
    → consume_room_ticket hash now (ticket_of q hash ∷ rest)
      ≡ (used_table q hash now rest, some (ticket_of q hash))
unfolding consume_room_ticket used_table
consume_first q hash now rest early = ground (arith, eq_iff hash hash)

consume_late :
    (q : RoomTicketRegistrationRequest) (hash : String) (now : ℕ) (rest : List RoomTicket)
    → q.expires_at ≤ now
    → consume_room_ticket hash now (ticket_of q hash ∷ rest) ≡ (ticket_of q hash ∷ rest, none)
unfolding consume_room_ticket
consume_late q hash now rest late = ground (arith, eq_iff hash hash)

-- A ticket is registered only for the room, while it is neither closing nor suspended, for an
-- actor that is not banned and has a place; from the table after the registration it is consumed,
-- before it expires, as it was registered, and then never again; once it has expired it is not
-- consumed.
pub register_room_ticket-consume :
    (q : RoomTicketRegistrationRequest) (hash : String) (d : Door) {d' : Door} (now later : ℕ)
    → register_room_ticket q hash d ≡ registered d'
    → Issued q hash d d'
      × (now < q.expires_at
          → ((consume_room_ticket hash now d'.tickets).1 ≡ some (ticket_of q hash))
            × ((consume_room_ticket hash later (consume_room_ticket hash now d'.tickets).0).1
                ≡ none))
      × (q.expires_at ≤ now → consume_room_ticket hash now d'.tickets ≡ (d'.tickets, none))
register_room_ticket-consume q hash d {d'} now later h =
    let i = register_room_ticket_lem q hash d h in
    let rest = delete (λ (t : RoomTicket). leb t.expires_at q.issued_at) d.tickets in
    let table : d'.tickets ≡ ticket_of q hash ∷ rest = ap (λ (x : Door). x.tickets) i.kept in
    (
      i,
      λ early.
          let first = consume_first q hash now rest early in
          let once = consume_room_ticket_once hash now later (ticket_of q hash ∷ rest) first in
          (rw table (ap (λ r. r.1) first), rw table (rw first (ap (λ r. r.1) once.2))),
      λ late. rw table (consume_late q hash now rest late),
    )
