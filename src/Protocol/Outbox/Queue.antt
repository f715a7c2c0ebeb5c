-- ===== src/Protocol/Outbox/Queue.antt =====
-- packages/protocol/src/outbox.ts: the numbers that the outbox has issued, sent and forgotten.
use echa.Prelude.{
  ℕ, suc, ◌≤◌, ◌<◌, String, Bool, true, false, ◌&&◌, ◌≡◌, refl, ap, sym, ◌∙◌, Option, some, List,
  [], ◌∷◌, max, leb, ◌==◌, delete, arith, Bool-cases, inl, inr,
}
use echa.Protocol.Messages.{StrokeOp, ClientStrokeEvent}
use echa.Protocol.Outbox.{
  StrokeOutbox, ActiveStroke, set_add, map_set, issue, acknowledge, mark_sent, event_of, has_event,
}

-- The numbers from `c` up to, and without, `next`.
abbrev pub IsRange : ℕ → ℕ → List ClientStrokeEvent → Type 0
IsRange c next [] = c ≡ next
IsRange c next (e ∷ es) = (e.client_seq ≡ c) × IsRange (suc c) next es

-- Ascending numbers above `lo` and below `next`.
abbrev pub IsAscending : ℕ → ℕ → List ℕ → Type 0
IsAscending lo next [] = Unit
IsAscending lo next (n ∷ ns) = (lo < n) × (n < next) × IsAscending n next ns

pub record QueueInv (o : StrokeOutbox) : Type 0 where
  pub acknowledged : o.last_acknowledged < o.next_client_seq
  pub range : IsRange (suc o.last_acknowledged) o.next_client_seq o.unacknowledged
  pub ascending : IsAscending o.last_acknowledged o.next_client_seq o.unsent

pub IsRange-le : (c next : ℕ) (es : List ClientStrokeEvent) → IsRange c next es → c ≤ next
IsRange-le c next [] h = omega arith
IsRange-le c next (e ∷ es) h = omega (arith, IsRange-le (suc c) next es h.1)

map_set-IsRange :
    (c next : ℕ) (es : List ClientStrokeEvent) (e : ClientStrokeEvent)
    → IsRange c next es
    → e.client_seq ≡ next
    → IsRange c (suc next) (map_set e es)
map_set-IsRange c next [] e h k = (k ∙ sym h, ap suc h)
map_set-IsRange c next (d ∷ ds) e h k =
    let below = IsRange-le (suc c) next ds h.1 in
    let rest = map_set-IsRange (suc c) next ds e h.1 k in
    let away : (d.client_seq == e.client_seq) ≡ false = ground arith in rw away (h.0, rest)

set_add-IsAscending :
    (lo next : ℕ) (ns : List ℕ)
    → lo < next
    → IsAscending lo next ns
    → IsAscending lo (suc next) (set_add next ns)
set_add-IsAscending lo next [] k h = (k, omega arith, tt)
set_add-IsAscending lo next (n ∷ ns) k h =
    let rest = set_add-IsAscending n next ns h.1 h.2 in
    let away : (n == next) ≡ false = ground arith in rw away (h.0, omega arith, rest)

pub issue-QueueInv :
    (id : String) (op : StrokeOp) (o : StrokeOutbox) → QueueInv o → QueueInv (issue id op o).0
unfolding issue
issue-QueueInv id op o inv = record {
  acknowledged = omega (arith, inv.acknowledged);
  range =
      map_set-IsRange (suc o.last_acknowledged) o.next_client_seq o.unacknowledged _ inv.range refl;
  ascending =
      set_add-IsAscending o.last_acknowledged o.next_client_seq o.unsent inv.acknowledged
        inv.ascending;
}

-- The active stroke plays no part in the queue.
pub with_active :
    (a : Option ActiveStroke) (o : StrokeOutbox) → QueueInv o → QueueInv (record o { active = a })
with_active a o inv = record {
  acknowledged = inv.acknowledged;
  range = inv.range;
  ascending = inv.ascending;
}

delete-IsRange_none :
    (c next seq : ℕ) (es : List ClientStrokeEvent)
    → seq < c
    → IsRange c next es
    → delete (λ (e : ClientStrokeEvent). leb e.client_seq seq) es ≡ es
delete-IsRange_none c next seq [] k h = refl
delete-IsRange_none c next seq (e ∷ es) k h =
    let away : leb e.client_seq seq ≡ false = ground arith in
    rw away (ap (λ xs. e ∷ xs) (delete-IsRange_none (suc c) next seq es (omega arith) h.1))

delete-IsRange :
    (lo next seq : ℕ) (es : List ClientStrokeEvent)
    → seq < next
    → IsRange (suc lo) next es
    → IsRange (suc (max lo seq)) next (delete (λ (e : ClientStrokeEvent). leb e.client_seq seq) es)
delete-IsRange lo next seq [] k h = omega arith
delete-IsRange lo next seq (e ∷ es) k h = elim (Bool-cases (leb e.client_seq seq)) [
  | inl gone ↦
      let same_max : max lo seq ≡ max (suc lo) seq = ground arith in
      rw (gone, same_max) (delete-IsRange (suc lo) next seq es k h.1)
  | inr kept ↦
      let same_max : max lo seq ≡ lo = ground arith in
      rw (kept, same_max)
        (h.0, rw (delete-IsRange_none (suc (suc lo)) next seq es (ground arith) h.1) h.1)
]

delete-IsAscending_lower :
    (lo next seq : ℕ) (p : ℕ → Bool) (ns : List ℕ)
    → seq < next
    → ((n : ℕ) → lo < n → n < next → n ≤ seq → p n ≡ true)
    → IsAscending lo next ns
    → IsAscending (max lo seq) next (delete (λ n. leb n seq && p n) ns)
delete-IsAscending_lower lo next seq p [] k all h = tt
delete-IsAscending_lower lo next seq p (n ∷ ns) k all h =
    let rest =
      delete-IsAscending_lower n next seq p ns k (λ m low. all m (omega (arith, h.0, low))) h.2 in
    elim (Bool-cases (leb n seq)) [
      | inl under ↦
          let gone = all n h.0 h.1 (ground arith) in
          let same_max : max lo seq ≡ max n seq = ground arith in rw (under, gone, same_max) rest
      | inr over ↦
          let same_max : max n seq ≡ n = ground arith in
          rw over (ground arith, h.1, rw same_max at rest)
    ]

-- Every number of the range has its event.
has-range :
    (c next n : ℕ) (es : List ClientStrokeEvent)
    → IsRange c next es
    → c ≤ n
    → n < next
    → has_event n es ≡ true
has-range c next n [] h k l = absurd (let x : ⊥ = omega arith in x)
has-range c next n (e ∷ es) h k l = elim (Bool-cases (event_of n e)) [
  | inl here ↦ rw here refl
  | inr away ↦ rw away (has-range (suc c) next n es h.1 (ground arith) l)
]

pub acknowledge-QueueInv :
    (seq : ℕ) (o : StrokeOutbox) {o' : StrokeOutbox}
    → QueueInv o
    → acknowledge seq o ≡ some o'
    → QueueInv o'
unfolding acknowledge
acknowledge-QueueInv seq o {o'} inv h =
    let issued : seq < o.next_client_seq = ground (arith, inv.acknowledged) in
    let eq : record o {
      last_acknowledged = max o.last_acknowledged seq;
      unacknowledged = delete (λ (e : ClientStrokeEvent). leb e.client_seq seq) o.unacknowledged;
      unsent = delete (λ n. leb n seq && has_event n o.unacknowledged) o.unsent;
    }
        ≡ o' =
      ground arith in
    rw (sym eq) (record {
      acknowledged = ground (arith, inv.acknowledged);
      range =
          delete-IsRange o.last_acknowledged o.next_client_seq seq o.unacknowledged issued
            inv.range;
      ascending =
          delete-IsAscending_lower o.last_acknowledged o.next_client_seq seq
            (λ n. has_event n o.unacknowledged) o.unsent issued
            (λ n low high under.
              has-range (suc o.last_acknowledged) o.next_client_seq n o.unacknowledged inv.range low
                high)
            inv.ascending;
    })

weaken-IsAscending :
    (lo lo' next : ℕ) (ns : List ℕ) → lo' ≤ lo → IsAscending lo next ns → IsAscending lo' next ns
weaken-IsAscending lo lo' next [] k h = tt
weaken-IsAscending lo lo' next (n ∷ ns) k h = (omega (arith, h.0), h.1, h.2)

delete-IsAscending :
    (lo next : ℕ) (p : ℕ → Bool) (ns : List ℕ)
    → IsAscending lo next ns
    → IsAscending lo next (delete p ns)
delete-IsAscending lo next p [] h = tt
delete-IsAscending lo next p (n ∷ ns) h =
    let rest = delete-IsAscending n next p ns h.2 in
    elim (Bool-cases (p n)) [
      | inl gone ↦ rw gone (weaken-IsAscending n lo next (delete p ns) (omega (arith, h.0)) rest)
      | inr kept ↦ rw kept (h.0, h.1, rest)
    ]

pub mark_sent-QueueInv :
    (seq : ℕ) (o : StrokeOutbox) {o' : StrokeOutbox}
    → QueueInv o
    → mark_sent seq o ≡ some o'
    → QueueInv o'
unfolding mark_sent
mark_sent-QueueInv seq o {o'} inv h =
    let eq : record o { unsent = delete (λ n. n == seq) o.unsent } ≡ o' = ground arith in
    rw (sym eq) (record {
      acknowledged = inv.acknowledged;
      range = inv.range;
      ascending =
          delete-IsAscending o.last_acknowledged o.next_client_seq (λ n. n == seq) o.unsent
            inv.ascending;
    })
