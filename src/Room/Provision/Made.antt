-- ===== src/Room/Provision/Made.antt =====
-- apps/realtime/src/drawing-room.ts: when `initializeRoom` throws.
use mathlib.Core.Path.{subst}
use echa.Prelude.{
  String, some_inj, ◌≡◌, ap, sym, ◌∙◌, inl, inr, ◌⊎◌, false, none, some, same, bind_of, Bool-cases,
  Option-cases,
}
use echa.Protocol.Value.{Value}
use echa.Room.Provision.{
  RoomProvisioningRequest, ProvisionStore, RoomProvisioningResult,
  validate_room_provisioning_request, room_metadata_matches, initialize_over, initialize_room,
}
use echa.Room.Provision.Once.{Provisioned, initialize_room_lem}

-- The room was made with other metadata, or is another one.
abbrev pub IsTaken : RoomProvisioningRequest → ProvisionStore → Type 0
IsTaken r s =
    ((m : RoomProvisioningRequest) × (s.metadata ≡ some m) × (room_metadata_matches m r ≡ false))
    ⊎ ((id : String) × (s.identity ≡ some id) × (same id r.room_id ≡ false))

other_room :
    (r : RoomProvisioningRequest) (s : ProvisionStore)
    → initialize_over none r s ≡ none
    → IsTaken r s
other_room r s e = elim (Option-cases s.identity) [
  | inl free ↦ absurd (let z : ⊥ = cc (rw free at e) in z)
  | inr (id, named) ↦ elim (Bool-cases (same id r.room_id)) [
    | inl own ↦ absurd (let z : ⊥ = cc (rw (named, own) at e) in z)
    | inr other ↦ inr (id, named, other)
  ]
]

refused :
    (v : Value) (r : RoomProvisioningRequest) (s : ProvisionStore)
    → validate_room_provisioning_request v ≡ some r
    → initialize_room v s ≡ none
    → IsTaken r s
unfolding initialize_room
refused v r s valid e =
    let e1 = sym (bind_of _ valid) ∙ e in
    elim (Option-cases s.metadata) [
      | inl empty ↦ other_room r s (ap (λ o. initialize_over o r s) (sym empty) ∙ e1)
      | inr (m, stored) ↦ elim (Bool-cases (room_metadata_matches m r)) [
        | inl matching ↦ absurd (let z : ⊥ = cc (rw (stored, matching) at e1) in z)
        | inr differs ↦ inl (m, stored, differs)
      ]
    ]

-- For a valid request initializeRoom throws only where the room was made with other metadata or
-- is another one. Else the room holds the metadata of the request, whose limits are the service's
-- and whose end is two hours after it was made: it was there already, or it is made: an active room
-- waits from then on, any other status is kept, and the end is scheduled. From then on an equal
-- request is answered with the same times and changes nothing, and any other valid request throws.
pub initialize_room_total :
    (v : Value) (r : RoomProvisioningRequest) (s : ProvisionStore)
    → validate_room_provisioning_request v ≡ some r
    → ((s' : ProvisionStore) × (result : RoomProvisioningResult) × (m : RoomProvisioningRequest)
        × (initialize_room v s ≡ some (s', result))
        × Provisioned s s' result r m)
      ⊎ ((initialize_room v s ≡ none) × IsTaken r s)
initialize_room_total v r s valid = elim (Option-cases (initialize_room v s)) [
  | inl e ↦ inr (e, refused v r s valid e)
  | inr ((s', result), e) ↦
      let (r', m, valid', made) = initialize_room_lem v s s' result e in
      let is_r : r' ≡ r = some_inj _ _ (sym valid' ∙ valid) in
      inl (s', result, m, e, subst (λ q. Provisioned s s' result q m) is_r made)
]
