-- ===== src/Room/Provision/Once.antt =====
-- apps/realtime/src/drawing-room.ts: `initializeRoom` once and again.
use mathlib.Core.Path.{subst}
use package.text.Mathlib.TextPositions.{eq_refl}
use echa.Prelude.{
  ℕ, ◌+◌, ◌≤◌, ◌≡◌, ◌⊎◌, refl, ap, sym, ◌∙◌, inl, inr, Bool, true, false, ◌||◌, none, some, [], ◌∷◌,
  arith, ◌==◌, Bool-cases, Option-cases, bind-some, bind_of, guarded, passed, some_inj,
  if◌then◌else◌,
}
use echa.Protocol.Value.Text.{is_hash}
use echa.Protocol.Server.Read.{identifier, one_of, whole_from, matching as matches}
use echa.Protocol.Value.{Value, get, is_int, whole, object, null, num, text, array, bool}
use echa.Room.Provision.{
  RoomVisibility, listed, unlisted, same_visibility, same_flag, RoomProvisioningRequest,
  has_safe_capacity_limits, has_legacy_capacity_limits, validate_room_provisioning_request,
  ProvisionStore, RoomProvisioningResult, initialized, already_initialized, room_metadata_matches,
  result_of, claimed_identity, initialize_over, initialize_room, room_max_duration_ms, waiting_from,
  is_room_name, visibility_text, boolean,
}

-- The limits and the end of a room that may be made.
pub record IsRequest (r : RoomProvisioningRequest) : Type 0 where
  pub some_participant : 1 ≤ r.participant_limit
  pub places :
      (r.participant_limit + r.viewer_limit ≤ 20)
      ⊎ ((r.participant_limit ≡ 20) × (r.viewer_limit ≡ 100))
  pub ends : r.max_ends_at ≡ r.created_at + room_max_duration_ms

places_of :
    (p v : ℕ)
    → (has_safe_capacity_limits p v || has_legacy_capacity_limits p v) ≡ true
    → (1 ≤ p) × ((p + v ≤ 20) ⊎ ((p ≡ 20) × (v ≡ 100)))
unfolding has_safe_capacity_limits has_legacy_capacity_limits
places_of p v h = elim (Bool-cases (has_safe_capacity_limits p v)) [
  | inl safe ↦ (ground arith, inl (ground arith))
  | inr not_safe ↦
      let legacy : has_legacy_capacity_limits p v ≡ true = ground arith in
      (ground arith, inr (ground arith, ground arith))
]

equal_of : (a b : ℕ) → (a == b) ≡ true → a ≡ b
equal_of a b h = ground arith

pub validate-IsRequest :
    (v : Value) (r : RoomProvisioningRequest)
    → validate_room_provisioning_request v ≡ some r
    → IsRequest r
unfolding validate_room_provisioning_request
validate-IsRequest (object fs) r h =
    let (versioned, h1) = guarded (is_int 1 (get "v" fs)) _ h in
    let (room, e2, h2) = bind-some (identifier (get "roomId" fs)) _ h1 in
    let (slug, e3, h3) = bind-some (matches (is_hash 32) (get "publicSlug" fs)) _ h2 in
    let (owner, e4, h4) = bind-some (identifier (get "ownerUserId" fs)) _ h3 in
    let (name, e5, h5) = bind-some (matches is_room_name (get "name" fs)) _ h4 in
    let (visibility, e6, h6) =
      bind-some (one_of visibility_text (listed ∷ unlisted ∷ []) (get "visibility" fs)) _ h5 in
    let (p, e7, h7) = bind-some (whole (get "participantLimit" fs)) _ h6 in
    let (w, e8, h8) = bind-some (whole (get "viewerLimit" fs)) _ h7 in
    let (limited, h9) =
      guarded (has_safe_capacity_limits p w || has_legacy_capacity_limits p w) _ h8 in
    let (chat, e10, h10) = bind-some (boolean (get "viewerChatEnabled" fs)) _ h9 in
    let (stamp, e11, h11) = bind-some (boolean (get "viewerStampEnabled" fs)) _ h10 in
    let (created, e12, h12) = bind-some (whole_from 1 (get "createdAt" fs)) _ h11 in
    let (ends, e13, h13) = bind-some (whole (get "maxEndsAt" fs)) _ h12 in
    let (timed, h14) = guarded (ends == created + room_max_duration_ms) _ h13 in
    let (one, places) = places_of p w limited in
    let is_r = some_inj _ _ h14 in
    let is_p = ap (λ (t : RoomProvisioningRequest). t.participant_limit) is_r in
    let is_w = ap (λ (t : RoomProvisioningRequest). t.viewer_limit) is_r in
    let ends_then = equal_of ends (created + room_max_duration_ms) timed in
    record {
      some_participant = subst (λ n. 1 ≤ n) is_p one;
      places =
          subst (λ n. (r.participant_limit + n ≤ 20) ⊎ ((r.participant_limit ≡ 20) × (n ≡ 100)))
            is_w (subst (λ n. (n + w ≤ 20) ⊎ ((n ≡ 20) × (w ≡ 100))) is_p places);
      ends =
          ap (λ (t : RoomProvisioningRequest). t.max_ends_at) (sym is_r)
          ∙ ends_then
          ∙ ap (λ (t : RoomProvisioningRequest). t.created_at + room_max_duration_ms) is_r;
    }
validate-IsRequest null r h = absurd (let z : ⊥ = cc in z)
validate-IsRequest (bool b) r h = absurd (let z : ⊥ = cc in z)
validate-IsRequest (num n) r h = absurd (let z : ⊥ = cc in z)
validate-IsRequest (text t) r h = absurd (let z : ⊥ = cc in z)
validate-IsRequest (array vs) r h = absurd (let z : ⊥ = cc in z)

same_visibility_refl : (v : RoomVisibility) → same_visibility v v ≡ true
same_visibility_refl listed = refl
same_visibility_refl unlisted = refl

same_flag_refl : (b : Bool) → same_flag b b ≡ true
same_flag_refl true = refl
same_flag_refl false = refl

eq_of : (n : ℕ) → (n == n) ≡ true
eq_of n = ground arith

room_metadata_matches_self : (r : RoomProvisioningRequest) → room_metadata_matches r r ≡ true
unfolding room_metadata_matches
room_metadata_matches_self r =
    rw
      (
        eq_refl r.room_id,
        eq_refl r.public_slug,
        eq_refl r.owner_user_id,
        eq_refl r.name,
        same_visibility_refl r.visibility,
        eq_of r.participant_limit,
        eq_of r.viewer_limit,
        same_flag_refl r.viewer_chat_enabled,
        same_flag_refl r.viewer_stamp_enabled,
        eq_of r.created_at,
        eq_of r.max_ends_at,
      )
      refl

-- What `initializeRoom` returned for the request `r`, and what the room holds then: the metadata `m`.
pub record Provisioned (s s' : ProvisionStore) (result : RoomProvisioningResult)
    (r m : RoomProvisioningRequest) : Type 0 where
  pub request : IsRequest r
  pub metadata : s'.metadata ≡ some m
  pub matching : room_metadata_matches m r ≡ true
  pub outcome :
      ((s' ≡ s) × (result ≡ result_of already_initialized m))
      ⊎ ((s.metadata ≡ none)
          × (result ≡ result_of initialized r)
          × (s'.tasks.max_duration ≡ some (r.created_at + room_max_duration_ms))
          × (s'.lifecycle ≡ waiting_from r.created_at s.lifecycle)
          × (s'.warning_stage ≡ 0))
  pub again :
      (w : Value) (q : RoomProvisioningRequest)
      → validate_room_provisioning_request w ≡ some q
      → initialize_room w s'
        ≡ (if room_metadata_matches m q then some (s', result_of already_initialized m) else none)

initialize_again :
    (s : ProvisionStore) (m : RoomProvisioningRequest) (w : Value) (q : RoomProvisioningRequest)
    → s.metadata ≡ some m
    → validate_room_provisioning_request w ≡ some q
    → initialize_room w s
      ≡ (if room_metadata_matches m q then some (s, result_of already_initialized m) else none)
unfolding initialize_room
initialize_again s m w q h k = bind_of _ k ∙ ap (λ o. initialize_over o q s) h

-- A room that is initialized holds the metadata of the request, whose limits are the service's; from
-- then on an equal request is answered with the same times and changes nothing, any other throws.
pub initialize_room_lem :
    (v : Value) (s s' : ProvisionStore) (result : RoomProvisioningResult)
    → initialize_room v s ≡ some (s', result)
    → (r m : RoomProvisioningRequest) × (validate_room_provisioning_request v ≡ some r)
      × Provisioned s s' result r m
unfolding initialize_room
initialize_room_lem v s s' result h =
    let (r, valid, h1) = bind-some (validate_room_provisioning_request v) _ h in
    let fits = validate-IsRequest v r valid in
    elim (Option-cases s.metadata) [
      | inl empty ↦
          let (id, claimed, h2) =
            bind-some (claimed_identity r.room_id s.identity) _
              (ap (λ o. initialize_over o r s) (sym empty) ∙ h1) in
          let same_pair = some_inj _ _ h2 in
          let same_store = ap (λ p. p.0) same_pair in
          let held : s'.metadata ≡ some r = ap (λ t. t.metadata) (sym same_store) in
          (
            r,
            r,
            valid,
            record {
              request = fits;
              metadata = held;
              matching = room_metadata_matches_self r;
              outcome = inr (
                empty,
                sym (ap (λ p. p.1) same_pair),
                ap (λ t. t.tasks.max_duration) (sym same_store) ∙ ap some fits.ends,
                ap (λ t. t.lifecycle) (sym same_store),
                ap (λ t. t.warning_stage) (sym same_store),
              );
              again = λ w q k. initialize_again s' r w q held k;
            },
          )
      | inr (m, stored) ↦
          let (same_metadata, h2) =
            passed (room_metadata_matches m r) _
              (ap (λ o. initialize_over o r s) (sym stored) ∙ h1) in
          let same_pair = some_inj _ _ h2 in
          let same_store = ap (λ p. p.0) same_pair in
          let held : s'.metadata ≡ some m = ap (λ t. t.metadata) (sym same_store) ∙ stored in
          (
            r,
            m,
            valid,
            record {
              request = fits;
              metadata = held;
              matching = same_metadata;
              outcome = inl (sym same_store, sym (ap (λ p. p.1) same_pair));
              again = λ w q k. initialize_again s' m w q held k;
            },
          )
    ]
