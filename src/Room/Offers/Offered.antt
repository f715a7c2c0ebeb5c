-- ===== src/Room/Offers/Offered.antt =====
-- apps/realtime/src/drawing-room.ts: the snapshots that `issueSnapshotOffer` offers on consistent tables.
use echa.Prelude.{
  ℕ, ◌≤◌, ◌≡◌, refl, ap, ◌∙◌, inl, inr, String, Bool, Bool-cases, true, false, not, ◌&&◌, ◌||◌,
  Option, none, some, List, [], ◌∷◌, arith, ltb, same, ◌==◌, find?, delete, bind_of, if◌then◌else◌,
}
use echa.Room.Snapshots.{
  snapshot_renderer_version, SnapshotManifest, SnapshotStore, current_snapshot, previous_snapshot,
}
use echa.Room.Snapshots.Commit.{is_active_room}
use echa.Room.Snapshots.Invariant.{Fits, SnapshotInv, read_known}
use echa.Room.Offers.{
  SnapshotReadTicket, SnapshotOffer, new_offer, new_ticket, is_excluded, candidate, has_hash,
  is_expired, offer_snapshot, issue_snapshot_offer, JoinRequest, offer_for,
}

-- The snapshot is of a number of the log that is not compacted yet, or where the log begins.
abbrev pub Usable : (through last : ℕ) → Option SnapshotManifest → Type 0
Usable through last none = Unit
Usable through last (some m) = (through ≤ m.base_room_seq) × (m.base_room_seq ≤ last)

Fits-Usable :
    (through last : ℕ) (p c : Option SnapshotManifest)
    → Fits through last p c
    → Usable through last c × Usable through last p
Fits-Usable through last none none f = (tt, tt)
Fits-Usable through last none (some c) f = ((omega (arith, f.0), f.1), tt)
Fits-Usable through last (some p) none f = absurd f
Fits-Usable through last (some p) (some c) f =
    ((omega (arith, f.0, f.1), f.2), (f.0, omega (arith, f.1, f.2)))

one_candidate :
    (through last : ℕ) (ids : List String) (m : SnapshotManifest)
    → Usable through last (some m)
    → Usable through last (if is_excluded ids m then none else some m)
one_candidate through last ids m h = elim (Bool-cases (is_excluded ids m)) [
  | inl e ↦ rw e tt
  | inr e ↦ rw e h
]

candidate-Usable :
    (through last : ℕ) (ids : List String) (c p : Option SnapshotManifest)
    → Usable through last c × Usable through last p
    → Usable through last (candidate ids c p)
candidate-Usable through last ids none none h = tt
candidate-Usable through last ids none (some p) h = one_candidate through last ids p h.1
candidate-Usable through last ids (some c) none h = one_candidate through last ids c h.0
candidate-Usable through last ids (some c) (some p) h = elim (Bool-cases (is_excluded ids c)) [
  | inl e ↦ rw e (one_candidate through last ids p h.1)
  | inr e ↦ rw e h.0
]

-- The snapshot that is offered is at or past what is compacted and what the client has.
abbrev pub OfferFits : (through last resume_after : ℕ) → Option SnapshotOffer → Type 0
OfferFits through last resume_after none = Unit
OfferFits through last resume_after (some o) =
    let base = o.manifest.base_room_seq in (through ≤ base) × (base ≤ last) × (resume_after ≤ base)

pub still_fresh :
    (hash : String) (now : ℕ) (ts : List SnapshotReadTicket)
    → find? (has_hash hash) ts ≡ none
    → find? (has_hash hash) (delete (is_expired now) ts) ≡ none
still_fresh hash now [] h = refl
still_fresh hash now (t ∷ ts) h = elim (Bool-cases (has_hash hash t)) [
  | inl e ↦ let z : ⊥ = ground (arith, e, h) in absurd z
  | inr e ↦
      let rest = still_fresh hash now ts (rw e at h) in
      elim (Bool-cases (is_expired now t)) [ inl old ↦ rw old rest | inr new ↦ rw (new, e) rest ]
]

module _ (sha256_hex : String → String) (token : String) (now : ℕ) (ts : List SnapshotReadTicket)
    (fresh : find? (has_hash (sha256_hex token)) ts ≡ none) where
  offer_snapshot-OfferFits :
      (through last resume_after : ℕ) (room_id : String) (m : Option SnapshotManifest)
      → Usable through last m
      → (r : Option SnapshotOffer × List SnapshotReadTicket) × (offer_snapshot sha256_hex room_id
            resume_after token now m ts
          ≡ some r)
        × OfferFits through last resume_after r.0
  offer_snapshot-OfferFits through last resume_after room_id none h = ((none, ts), refl, tt)
  offer_snapshot-OfferFits through last resume_after room_id (some m) h =
      let free = still_fresh (sha256_hex token) now ts fresh in
      elim (Bool-cases (not (same m.room_id room_id) || ltb m.base_room_seq resume_after)) [
        | inl e ↦ ((none, ts), rw e refl, tt)
        | inr e ↦ (
          (
            some (new_offer m token now),
            new_ticket (sha256_hex token) m now ∷ delete (is_expired now) ts,
          ),
          rw (e, free) refl,
          (h.0, h.1, ground (arith, e)),
        )
      ]

  module _ (last : ℕ) (s : SnapshotStore) (inv : SnapshotInv last s) (is_active : Bool)
      (known : is_active_room s ≡ some is_active) where
    abbrev compacted_to : ℕ
    compacted_to = s.state.compacted_through

    issue_snapshot_offer-OfferFits :
        (resume_after : ℕ) (room_id : String) (ids : List String)
        → (r : Option SnapshotOffer × List SnapshotReadTicket) × (issue_snapshot_offer sha256_hex
              room_id resume_after ids token now s ts
            ≡ some r)
          × OfferFits compacted_to last resume_after r.0
    unfolding issue_snapshot_offer
    issue_snapshot_offer-OfferFits resume_after room_id ids = by_state is_active known
      where
        is_current : current_snapshot s ≡ some inv.current
        is_current =
            read_known s.state.current_job_id s.manifests inv.each_manifest ∙ ap some inv.is_current

        is_previous : previous_snapshot s ≡ some inv.previous
        is_previous =
            read_known s.state.previous_job_id s.manifests inv.each_manifest
            ∙ ap some inv.is_previous

        by_state :
            (b : Bool)
            → is_active_room s ≡ some b
            → (r : Option SnapshotOffer × List SnapshotReadTicket) × (issue_snapshot_offer
                  sha256_hex room_id resume_after ids token now s ts
                ≡ some r)
              × OfferFits compacted_to last resume_after r.0
        by_state false e = ((none, ts), bind_of _ e, tt)
        by_state true e =
            let (r, is_r, fits) =
              offer_snapshot-OfferFits compacted_to last resume_after room_id
                (candidate ids inv.current inv.previous)
                (candidate-Usable compacted_to last ids inv.current inv.previous
                  (Fits-Usable compacted_to last inv.previous inv.current inv.fits)) in
            (r, bind_of _ e ∙ bind_of _ is_current ∙ bind_of _ is_previous ∙ is_r, fits)

    pub offer_for-OfferFits :
        (q : JoinRequest)
        → (r : Option SnapshotOffer × List SnapshotReadTicket) × (offer_for sha256_hex q token now s
              ts
            ≡ some r)
          × OfferFits compacted_to last q.resume_after_room_seq r.0
    offer_for-OfferFits q =
        elim (Bool-cases
          (q.snapshot_recovery_enabled && q.renderer_version == snapshot_renderer_version)) [
            | inl e ↦
                let (r, is_r, fits) =
                  issue_snapshot_offer-OfferFits q.resume_after_room_seq q.room_id
                    q.excluded_snapshot_jobs in
                (r, rw e is_r, fits)
            | inr e ↦ ((none, ts), rw e refl, tt)
          ]
