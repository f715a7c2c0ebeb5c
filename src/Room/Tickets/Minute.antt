-- ===== src/Room/Tickets/Minute.antt =====
-- packages/protocol/src/room-access.ts and apps/realtime/src/drawing-room.ts: a ticket from the request on.
use mathlib.Core.Path.{subst}
use echa.Prelude.{
  ℕ, ◌+◌, ◌≤◌, ◌≡◌, String, Bool, true, Option, none, some, ltb, ◌==◌, inl, inr, arith, sym, ap,
  ◌∙◌, Bool-cases, bind-some, guarded, some_inj, if◌then◌else◌,
}
use echa.Protocol.Server.{role_text}
use echa.Protocol.Server.Parser.{is_display_name}
use echa.Protocol.Value.{Value, null, bool, num, text, array, object, get, whole, is_int}
use echa.Protocol.Value.Text.{is_hash}
use echa.Protocol.Server.Read.{identifier, hash, one_of, roles, whole_from}
use echa.Room.Tickets.{
  RoomTicketRegistrationRequest, Door, registered, ticket_of, consume_room_ticket,
}
use echa.Room.Tickets.Once.{Issued, register_room_ticket-consume}
use echa.Room.Tickets.Request.{
  room_ticket_ttl_ms, Url, optional, optional_boolean, is_safe_avatar_url,
  validate_room_ticket_registration_request, register_validated,
}

abbrev pub Passes : (String → Bool) → Option String → Type 0
Passes p none = Unit
Passes p (some s) = p s ≡ true

tested :
    (p : String → Bool) (s : String) (o : Option String)
    → (if p s then some (some s) else none) ≡ some o
    → Passes p o
tested p s o h = elim (Bool-cases (p s)) [
  | inl e ↦ subst (Passes p) (some_inj _ _ (rw e at h)) e
  | inr e ↦ absurd (let z : ⊥ = cc (rw e at h) in z)
]

optional-Passes :
    (p : String → Bool) (v : Option Value) (o : Option String) → optional p v ≡ some o → Passes p o
optional-Passes p none o h = subst (Passes p) (some_inj _ _ h) tt
optional-Passes p (some null) o h = subst (Passes p) (some_inj _ _ h) tt
optional-Passes p (some (text s)) o h = tested p s o h
optional-Passes p (some (bool b)) o h = absurd (let z : ⊥ = cc h in z)
optional-Passes p (some (num n)) o h = absurd (let z : ⊥ = cc h in z)
optional-Passes p (some (array vs)) o h = absurd (let z : ⊥ = cc h in z)
optional-Passes p (some (object fs)) o h = absurd (let z : ⊥ = cc h in z)

module _ (parse_url : String → Option Url) where
  -- The ticket lasts a minute, and what others are shown of its holder is safe.
  pub record IsTicketRequest (q : RoomTicketRegistrationRequest) : Type 0 where
    pub ends : q.expires_at ≡ q.issued_at + room_ticket_ttl_ms
    pub shown_name : Passes is_display_name q.display_name
    pub shown_picture : Passes (is_safe_avatar_url parse_url) q.avatar_url

  validate-IsTicketRequest :
      (v : Value) (q : RoomTicketRegistrationRequest)
      → validate_room_ticket_registration_request parse_url v ≡ some q
      → IsTicketRequest q
  unfolding validate_room_ticket_registration_request
  validate-IsTicketRequest (object fs) q h =
      let (versioned, h1) = guarded (is_int 1 (get "v" fs)) _ h in
      let (room, e2, h2) = bind-some (identifier (get "roomId" fs)) _ h1 in
      let (actor, e3, h3) = bind-some (identifier (get "actorId" fs)) _ h2 in
      let (connection, e4, h4) = bind-some (identifier (get "connectionId" fs)) _ h3 in
      let (role, e5, h5) = bind-some (one_of role_text roles (get "role" fs)) _ h4 in
      let (chat, e6, h6) = bind-some (optional_boolean (get "canChat" fs)) _ h5 in
      let (name, e7, h7) = bind-some (optional is_display_name (get "displayName" fs)) _ h6 in
      let (avatar, e8, h8) =
        bind-some (optional (is_safe_avatar_url parse_url) (get "avatarUrl" fs)) _ h7 in
      let (session, e9, h9) = bind-some (hash (get "sessionBindingHash" fs)) _ h8 in
      let (issued, e10, h10) = bind-some (whole_from 1 (get "issuedAt" fs)) _ h9 in
      let (expires, e11, h11) = bind-some (whole (get "expiresAt" fs)) _ h10 in
      let (timed, h12) = guarded (expires == issued + room_ticket_ttl_ms) _ h11 in
      let is_q = some_inj _ _ h12 in
      let minute : expires ≡ issued + room_ticket_ttl_ms =
        equal_of expires (issued + room_ticket_ttl_ms) timed in
      record {
        ends =
            ap (λ (t : RoomTicketRegistrationRequest). t.expires_at) (sym is_q)
            ∙ minute
            ∙ ap (λ (t : RoomTicketRegistrationRequest). t.issued_at + room_ticket_ttl_ms) is_q;
        shown_name =
            subst (Passes is_display_name)
              (ap (λ (t : RoomTicketRegistrationRequest). t.display_name) is_q)
              (optional-Passes is_display_name (get "displayName" fs) name e7);
        shown_picture =
            subst (Passes (is_safe_avatar_url parse_url))
              (ap (λ (t : RoomTicketRegistrationRequest). t.avatar_url) is_q)
              (optional-Passes (is_safe_avatar_url parse_url) (get "avatarUrl" fs) avatar e8);
      }
    where
      equal_of : (a b : ℕ) → (a == b) ≡ true → a ≡ b
      equal_of a b k = ground (arith, k)
  validate-IsTicketRequest null q h = absurd (let z : ⊥ = cc in z)
  validate-IsTicketRequest (bool b) q h = absurd (let z : ⊥ = cc in z)
  validate-IsTicketRequest (num n) q h = absurd (let z : ⊥ = cc in z)
  validate-IsTicketRequest (text t) q h = absurd (let z : ⊥ = cc in z)
  validate-IsTicketRequest (array vs) q h = absurd (let z : ⊥ = cc in z)

  -- A ticket is registered only for a valid request, whose display name is one, whose picture has
  -- a safe address and which ends a minute after it was issued, and only for the room of the
  -- request, while it is neither closing nor suspended, for an actor who is not banned and has a
  -- place. It is consumed as it was registered until that minute is over, and not after; and no
  -- later call consumes it again.
  pub register_validated-consume :
      (v : Value) (token_hash : String) (d d' : Door) (now later : ℕ)
      → register_validated parse_url v token_hash d ≡ some (registered d')
      → now ≤ later
      → (q : RoomTicketRegistrationRequest) × (validate_room_ticket_registration_request parse_url v
          ≡ some q)
        × IsTicketRequest q
        × Issued q token_hash d d'
        × ((consume_room_ticket token_hash now d'.tickets).1 ≡ (
            if ltb now (q.issued_at + room_ticket_ttl_ms)
            then some (ticket_of q token_hash)
            else none))
        × ((consume_room_ticket token_hash later
              (consume_room_ticket token_hash now d'.tickets).0).1
            ≡ none)
  unfolding register_validated
  register_validated-consume v token_hash d d' now later h order =
      let (q, valid, h1) = bind-some (validate_room_ticket_registration_request parse_url v) _ h in
      let (hashed, h2) = guarded (is_hash 64 token_hash) _ h1 in
      let fits = validate-IsTicketRequest v q valid in
      let done = some_inj _ _ h2 in
      let ends = fits.ends in
      let (issued, early, late) = register_room_ticket-consume q token_hash d now later done in
      let (_, _, late_again) = register_room_ticket-consume q token_hash d later later done in
      elim (Bool-cases (ltb now (q.issued_at + room_ticket_ttl_ms))) [
        | inl in_time ↦
            let (first, second) = early (ground (arith, in_time, ends)) in
            (q, valid, fits, issued, rw in_time first, second)
        | inr too_late ↦
            let unread = late (ground (arith, too_late, ends)) in
            let unread_again = late_again (ground (arith, too_late, ends, order)) in
            (
              q,
              valid,
              fits,
              issued,
              rw too_late (ap (λ r. r.1) unread),
              ap (λ r. (consume_room_ticket token_hash later r.0).1) unread
                  ∙ ap (λ r. r.1) unread_again,
            )
      ]
