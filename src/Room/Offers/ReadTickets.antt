-- ===== src/Room/Offers/ReadTickets.antt =====
-- apps/realtime/src/drawing-room.ts: the token of an offer, from `issueSnapshotOffer` to
-- `consumeSnapshotReadTicket`.
use mathlib.Core.Path.{subst}
use text.Mathlib.TextPositions.{eq_refl}
use echa.Prelude.{
  leb_of_le, ℕ, ◌+◌, ◌≤◌, ◌≡◌, refl, ap, sym, ◌∙◌, ◌⊎◌, inl, inr, String, Bool, Bool-cases,
  Option-cases, true, false, not, ◌&&◌, ◌||◌, Option, none, some, some_inj, List, [], ◌∷◌, arith,
  eq_iff, ltb, leb, same, find?, find?-holds, update, delete, if◌then◌else◌, bind_of, bind-some,
}
use echa.Protocol.Value.Text.{is_identifier, is_hash}
use echa.Room.Snapshots.{
  SnapshotManifest, SnapshotStore, manifest_is, manifest_in, manifest_from_row, supported_manifest,
  current_snapshot, previous_snapshot,
}
use echa.Room.Snapshots.Commit.{is_active_room}
use echa.Room.Offers.{
  snapshot_read_ttl_ms, SnapshotReadTicket, SnapshotOffer, SnapshotReadGrant,
  public_snapshot_manifest, new_offer, new_ticket, is_excluded, candidate, has_hash, is_expired,
  can_read, manifest_for, is_unread, read_at, grant_of, offer_snapshot, issue_snapshot_offer,
  consume_snapshot_read_ticket,
}

-- A snapshot that is read is known, and the one that its job's id finds.
row_of :
    (id : Option String) (ms : List SnapshotManifest) (m : SnapshotManifest)
    → manifest_from_row (manifest_in id ms) ≡ some (some m)
    → (supported_manifest m ≡ true) × (find? (manifest_is m.job_id) ms ≡ some m)
row_of none ms m h = absurd (let z : ⊥ = cc h in z)
row_of (some i) ms m h = elim (Option-cases (find? (manifest_is i) ms)) [
  | inl e ↦ absurd (let z : ⊥ = cc (rw e at h) in z)
  | inr (x, e) ↦ elim (Bool-cases (supported_manifest x)) [
    | inr bad ↦ absurd (let z : ⊥ = cc (rw (e, bad) at h) in z)
    | inl good ↦
        let is_m : x ≡ m = some_inj x m (some_inj (some x) (some m) (rw (e, good) at h)) in
        let its_id : m.job_id ≡ i =
          (eq_iff m.job_id i).0 (find?-holds (manifest_is i) ms m (e ∙ ap some is_m)) in
        (
          subst (λ y. supported_manifest y ≡ true) is_m good,
          subst (λ j. find? (manifest_is j) ms ≡ some m) (sym its_id) (e ∙ ap some is_m),
        )
  ]
]

one_or_none :
    (b : Bool) (c m : SnapshotManifest) → (if b then none else some c) ≡ some m → some c ≡ some m
one_or_none true c m h = absurd (let z : ⊥ = cc h in z)
one_or_none false c m h = h

candidate_of :
    (ids : List String) (c p : Option SnapshotManifest) (m : SnapshotManifest)
    → candidate ids c p ≡ some m
    → (c ≡ some m) ⊎ (p ≡ some m)
candidate_of ids none none m h = inl h
candidate_of ids none (some p) m h = inr (one_or_none (is_excluded ids p) p m h)
candidate_of ids (some c) none m h = inl (one_or_none (is_excluded ids c) c m h)
candidate_of ids (some c) (some p) m h = elim (Bool-cases (is_excluded ids c)) [
  | inl e ↦ inr (one_or_none (is_excluded ids p) p m (rw e at h))
  | inr e ↦ inl (rw e at h)
]

for_room :
    (room_id id : String) (ms : List SnapshotManifest) (m : SnapshotManifest)
    → find? (manifest_is id) ms ≡ some m
    → same m.room_id room_id ≡ true
    → find? (manifest_for room_id id) ms ≡ some m
for_room room_id id [] m h k = cc h
for_room room_id id (x ∷ xs) m h k = elim (Bool-cases (manifest_is id x)) [
  | inl e ↦
      let is_m : x ≡ m = some_inj x m (rw e at h) in
      let here = subst (λ y. same y.room_id room_id ≡ true) (sym is_m) k in
      rw (e, here) (ap some is_m)
  | inr e ↦ rw e (for_room room_id id xs m (rw e at h) k)
]

-- No ticket is left that the token reads.
none_unread :
    (hash job_id : String) (now later : ℕ) (ts : List SnapshotReadTicket)
    → find? (can_read hash job_id later) (update (is_unread hash) (read_at now) ts) ≡ none
none_unread hash job_id now later [] = refl
none_unread hash job_id now later (t ∷ ts) = elim (Bool-cases (is_unread hash t)) [
  | inl e ↦ rw e (ground (arith, none_unread hash job_id now later ts))
  | inr e ↦ rw e (ground (arith, e, none_unread hash job_id now later ts))
]

module _ (sha256_hex : String → String) where
  offer_of :
      (room_id : String) (resume_after : ℕ) (token : String) (now : ℕ) (m : Option SnapshotManifest)
      (ts ts' : List SnapshotReadTicket) (o : SnapshotOffer)
      → offer_snapshot sha256_hex room_id resume_after token now m ts ≡ some (some o, ts')
      → (x : SnapshotManifest) × (m ≡ some x)
        × (same x.room_id room_id ≡ true)
        × (new_offer x token now ≡ o)
        × (new_ticket (sha256_hex token) x now ∷ delete (is_expired now) ts ≡ ts')
  offer_of room_id resume_after token now none ts ts' o h = absurd (let z : ⊥ = cc h in z)
  offer_of room_id resume_after token now (some x) ts ts' o h =
      elim (Bool-cases (not (same x.room_id room_id) || ltb x.base_room_seq resume_after)) [
        | inl e ↦ absurd (let z : ⊥ = cc (rw e at h) in z)
        | inr e ↦
            elim (Option-cases (find? (has_hash (sha256_hex token)) (delete (is_expired now) ts))) [
              | inr (t, k) ↦ absurd (let z : ⊥ = cc (rw (e, k) at h) in z)
              | inl k ↦
                  let both = some_inj _ _ (rw (e, k) at h) in
                  (
                    x,
                    refl,
                    ground (arith, e),
                    some_inj _ _ (ap (λ r. r.0) both),
                    ap (λ r. r.1) both,
                  )
            ]
      ]

  -- The snapshot that an offer is of.
  offered :
      (room_id : String) (resume_after : ℕ) (ids : List String) (token : String) (now : ℕ)
      (s : SnapshotStore) (ts ts' : List SnapshotReadTicket) (o : SnapshotOffer)
      → issue_snapshot_offer sha256_hex room_id resume_after ids token now s ts ≡ some (some o, ts')
      → (x : SnapshotManifest) × (is_active_room s ≡ some true)
        × (supported_manifest x ≡ true)
        × (find? (manifest_for room_id x.job_id) s.manifests ≡ some x)
        × (new_offer x token now ≡ o)
        × (new_ticket (sha256_hex token) x now ∷ delete (is_expired now) ts ≡ ts')
  unfolding issue_snapshot_offer
  offered room_id resume_after ids token now s ts ts' o h =
      let (is_active, known, h1) = bind-some (is_active_room s) _ h in
      elim (Bool-cases is_active) [
        | inr e ↦ absurd (let z : ⊥ = cc (rw e at h1) in z)
        | inl e ↦
            let (c, is_c, h2) = bind-some (current_snapshot s) _ (rw e at h1) in
            let (p, is_p, h3) = bind-some (previous_snapshot s) _ h2 in
            let (x, is_x, its_room, is_o, is_ts) =
              offer_of room_id resume_after token now (candidate ids c p) ts ts' o h3 in
            let (good, row) =
              elim (candidate_of ids c p x is_x)
                as (λ _.
                  (supported_manifest x ≡ true)
                  × (find? (manifest_is x.job_id) s.manifests ≡ some x)) [
                    | inl k ↦ row_of s.state.current_job_id s.manifests x (is_c ∙ ap some k)
                    | inr k ↦ row_of s.state.previous_job_id s.manifests x (is_p ∙ ap some k)
                  ] in
            (
              x,
              known ∙ ap some e,
              good,
              for_room room_id x.job_id s.manifests x row its_room,
              is_o,
              is_ts,
            )
      ]

  read_first :
      (room_id token : String) (now first : ℕ) (s : SnapshotStore) (x : SnapshotManifest)
      (ts : List SnapshotReadTicket)
      → is_active_room s ≡ some true
      → supported_manifest x ≡ true
      → find? (manifest_for room_id x.job_id) s.manifests ≡ some x
      → is_identifier 8 128 room_id ≡ true
      → is_identifier 8 128 x.job_id ≡ true
      → is_hash 64 token ≡ true
      → first ≤ now + snapshot_read_ttl_ms
      → let issued = new_ticket (sha256_hex token) x now ∷ ts in
        consume_snapshot_read_ticket sha256_hex room_id x.job_id token first s issued
        ≡ some (
          some (record { manifest = x; expires_at = now + snapshot_read_ttl_ms }),
          update (is_unread (sha256_hex token)) (read_at first) issued,
        )
  unfolding consume_snapshot_read_ticket
  read_first room_id token now first s x ts active good row is_room is_job is_token in_time =
      let in_time_test : leb first (now + snapshot_read_ttl_ms) ≡ true = leb_of_le _ _ in_time in
      let hash = sha256_hex token in
      let ticket = new_ticket hash x now in
      let found : find? (can_read hash x.job_id first) (ticket ∷ ts) ≡ some ticket =
        rw (eq_refl hash, eq_refl x.job_id, in_time_test) refl in
      rw (is_room, is_job, is_token)
        (bind_of _ active
          ∙ ap
              (λ t.
                grant_of hash first t (find? (manifest_for room_id x.job_id) s.manifests)
                  (ticket ∷ ts))
              found
          ∙ ap (λ m. grant_of hash first (some ticket) m (ticket ∷ ts)) row
          ∙ rw good refl)

  read_again :
      (room_id job_id token : String) (first again : ℕ) (s : SnapshotStore)
      (ts : List SnapshotReadTicket)
      → is_active_room s ≡ some true
      → let used = update (is_unread (sha256_hex token)) (read_at first) ts in
        consume_snapshot_read_ticket sha256_hex room_id job_id token again s used
        ≡ some (none, used)
  unfolding consume_snapshot_read_ticket
  read_again room_id job_id token first again s ts active =
      elim (Bool-cases
        (is_identifier 8 128 room_id && is_identifier 8 128 job_id && is_hash 64 token)) [
          | inr e ↦ rw e refl
          | inl e ↦
              rw e
                (bind_of _ active ∙ rw (none_unread (sha256_hex token) job_id first again ts) refl)
        ]

  -- The token of an offer, presented until it expires for the job and the room of the offer, which are
  -- identifiers, grants the manifest and the expiry of the offer; presented again, for any job and room
  -- and at any time, it grants nothing.
  pub issue_snapshot_offer-consume_snapshot_read_ticket :
      (room_id : String) (resume_after : ℕ) (ids : List String) (token : String) (now : ℕ)
      (s : SnapshotStore) (ts ts' : List SnapshotReadTicket) (o : SnapshotOffer)
      → issue_snapshot_offer sha256_hex room_id resume_after ids token now s ts ≡ some (some o, ts')
      → is_identifier 8 128 room_id ≡ true
      → is_identifier 8 128 o.manifest.job_id ≡ true
      → is_hash 64 token ≡ true
      → (first again : ℕ) → first ≤ o.expires_at
      → (room job : String)
      → (g : SnapshotReadGrant) × (used : List SnapshotReadTicket) × (consume_snapshot_read_ticket
            sha256_hex room_id o.manifest.job_id token first s ts'
          ≡ some (some g, used))
        × (public_snapshot_manifest g.manifest ≡ o.manifest)
        × (g.expires_at ≡ o.expires_at)
        × (consume_snapshot_read_ticket sha256_hex room job token again s used ≡ some (none, used))
  unfolding consume_snapshot_read_ticket
  issue_snapshot_offer-consume_snapshot_read_ticket room_id resume_after ids token now s ts ts' o h
        is_room is_job is_token first again in_time room job =
      let (x, active, good, row, is_o, is_ts) =
        offered room_id resume_after ids token now s ts ts' o h in
      let its_job : x.job_id ≡ o.manifest.job_id = ap (λ r. r.manifest.job_id) is_o in
      let its_end : now + snapshot_read_ttl_ms ≡ o.expires_at = ap (λ r. r.expires_at) is_o in
      let hash = sha256_hex token in
      let issued = new_ticket hash x now ∷ delete (is_expired now) ts in
      (
        record { manifest = x; expires_at = now + snapshot_read_ttl_ms },
        update (is_unread hash) (read_at first) issued,
        ap (λ j. consume_snapshot_read_ticket sha256_hex room_id j token first s ts') (sym its_job)
            ∙ ap (consume_snapshot_read_ticket sha256_hex room_id x.job_id token first s)
                (sym is_ts)
            ∙ read_first room_id token now first s x (delete (is_expired now) ts) active good row
                is_room (ap (is_identifier 8 128) its_job ∙ is_job) is_token
                (omega (arith, in_time, its_end)),
        ap (λ r. r.manifest) is_o,
        its_end,
        read_again room job token first again s issued active,
      )
