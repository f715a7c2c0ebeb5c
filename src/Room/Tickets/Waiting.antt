-- ===== src/Room/Tickets/Waiting.antt =====
-- apps/realtime/src/drawing-room.ts: sockets, and the requests of `fetch` that were tested and whose
-- sockets are not accepted yet, for one limit on those that count.
use echa.Prelude.{
  suc, ◌+◌, ◌≤◌, Bool, true, false, ◌≡◌, refl, ap, sym, ◌∙◌, List, [], ◌∷◌, count, delete, length,
  arith, ℕ, ◌++◌, ◌<◌, ◌||◌, inl, inr, Bool-cases,
}
use mathlib.Core.Path.{subst}
use echa.Room.State.{ConnectionAttachment}
use echa.Room.Tickets.{of_actor, replace_sockets}

-- The sockets of the actors of some requests.
abbrev pub among : List ConnectionAttachment → ConnectionAttachment → Bool
among [] x = false
among (s ∷ ss) x = of_actor s.actor x || among ss x

-- Some of the requests.
abbrev pub masked : List Bool → List ConnectionAttachment → List ConnectionAttachment
masked [] ws = []
masked (b ∷ bs) [] = []
masked (true ∷ bs) (w ∷ ws) = w ∷ masked bs ws
masked (false ∷ bs) (w ∷ ws) = masked bs ws

-- The same of them and one that is at a place.
abbrev with_one : List ConnectionAttachment → List Bool → List Bool
with_one [] bs = true ∷ bs
with_one (a ∷ ys) [] = false ∷ with_one ys []
with_one (a ∷ ys) (b ∷ bs) = b ∷ with_one ys bs

-- The same of them, where there is one more at a place.
abbrev without_one : List ConnectionAttachment → List Bool → List Bool
without_one [] bs = false ∷ bs
without_one (a ∷ ys) [] = []
without_one (a ∷ ys) (b ∷ bs) = b ∷ without_one ys bs

masked-without_one :
    (s : ConnectionAttachment) (before after : List ConnectionAttachment) (bs : List Bool)
    → masked (without_one before bs) (before ++ s ∷ after) ≡ masked bs (before ++ after)
masked-without_one s [] after bs = refl
masked-without_one s (a ∷ ys) after [] = refl
masked-without_one s (a ∷ ys) after (true ∷ bs) =
    ap (λ ws. a ∷ ws) (masked-without_one s ys after bs)
masked-without_one s (a ∷ ys) after (false ∷ bs) = masked-without_one s ys after bs

length-masked :
    (bs : List Bool) (ws : List ConnectionAttachment) → length (masked bs ws) ≤ length ws
length-masked [] ws = omega arith
length-masked (b ∷ bs) [] = omega arith
length-masked (true ∷ bs) (w ∷ ws) = omega (arith, length-masked bs ws)
length-masked (false ∷ bs) (w ∷ ws) = omega (arith, length-masked bs ws)

among-with_one :
    (s x : ConnectionAttachment) (before after : List ConnectionAttachment) (bs : List Bool)
    → among (masked (with_one before bs) (before ++ s ∷ after)) x
      ≡ (of_actor s.actor x || among (masked bs (before ++ after)) x)
among-with_one s x [] after bs = refl
among-with_one s x (a ∷ ys) after [] = among-with_one s x ys after []
among-with_one s x (a ∷ ys) after (true ∷ bs) = ground (arith, among-with_one s x ys after bs)
among-with_one s x (a ∷ ys) after (false ∷ bs) = among-with_one s x ys after bs

count_le-length :
    (p : ConnectionAttachment → Bool) (xs : List ConnectionAttachment) → count p xs ≤ length xs
count_le-length p [] = omega arith
count_le-length p (x ∷ xs) = ground (arith, count_le-length p xs)

module _ (p : ConnectionAttachment → Bool) where
  count-with_one :
      (s : ConnectionAttachment) (before after : List ConnectionAttachment) (bs : List Bool)
      → count p (masked (with_one before bs) (before ++ s ∷ after))
        ≡ count p (s ∷ masked bs (before ++ after))
  count-with_one s [] after bs = refl
  count-with_one s (a ∷ ys) after [] = count-with_one s ys after []
  count-with_one s (a ∷ ys) after (true ∷ bs) = ground (arith, count-with_one s ys after bs)
  count-with_one s (a ∷ ys) after (false ∷ bs) = count-with_one s ys after bs

  module _ (f g : ConnectionAttachment → Bool) where
    delete-delete :
        (xs : List ConnectionAttachment)
        → count p (delete g (delete f xs)) ≡ count p (delete (λ x. f x || g x) xs)
    delete-delete [] = refl
    delete-delete (x ∷ xs) = ground (arith, delete-delete xs)

    delete-or_left :
        (xs : List ConnectionAttachment)
        → count p (delete (λ x. f x || g x) xs) ≤ count p (delete f xs)
    delete-or_left [] = omega arith
    delete-or_left (x ∷ xs) = ground (arith, delete-or_left xs)

    delete-or_right :
        (xs : List ConnectionAttachment)
        → count p (delete (λ x. f x || g x) xs) ≤ count p (delete g xs)
    delete-or_right [] = omega arith
    delete-or_right (x ∷ xs) = ground (arith, delete-or_right xs)

    delete-same :
        ((x : ConnectionAttachment) → f x ≡ g x)
        → (xs : List ConnectionAttachment) → count p (delete f xs) ≡ count p (delete g xs)
    delete-same h [] = refl
    delete-same h (x ∷ xs) = ground (arith, h x, delete-same h xs)

  -- Of the sockets that count, those that stay when some of the requests that wait are accepted, and
  -- these, are at most `k - 1` more than the limit.
  abbrev pub Fits : (limit k : ℕ) → (waiting sockets : List ConnectionAttachment) → Type 0
  Fits limit k waiting sockets =
      (bs : List Bool)
      → count p (delete (among (masked bs waiting)) sockets) + count p (masked bs waiting)
        < limit + k

  module _ (limit k : ℕ) where
    pub admits-Fits :
        (s : ConnectionAttachment) (waiting sockets : List ConnectionAttachment)
        → suc (length waiting) ≤ k
        → (p s ≡ true → count p (delete (of_actor s.actor) sockets) < limit)
        → Fits limit k waiting sockets
        → Fits limit k (s ∷ waiting) sockets
    admits-Fits s waiting sockets few free fits [] = fits []
    admits-Fits s waiting sockets few free fits (false ∷ bs) = fits bs
    admits-Fits s waiting sockets few free fits (true ∷ bs) =
        let ws = masked bs waiting in
        elim (Bool-cases (p s)) [
          | inl counts ↦ rw counts (
              omega (
                arith,
                free counts,
                few,
                delete-or_left (of_actor s.actor) (among ws) sockets,
                count_le-length p ws,
                length-masked bs waiting,
              ))
          | inr other ↦
              rw other
                (omega (arith, fits bs, delete-or_right (of_actor s.actor) (among ws) sockets))
        ]

    pub accepts-Fits :
        (s : ConnectionAttachment) (before after sockets : List ConnectionAttachment)
        → Fits limit k (before ++ s ∷ after) sockets
        → Fits limit k (before ++ after) (replace_sockets s sockets)
    accepts-Fits s before after sockets fits bs =
        let ws = masked bs (before ++ after) in
        let all = masked (with_one before bs) (before ++ s ∷ after) in
        let own = of_actor s.actor in
        let same_sockets =
          delete-delete own (among ws) sockets
          ∙ sym (
              delete-same (among all) (λ x. own x || among ws x)
                (λ x. among-with_one s x before after bs) sockets) in
        ground (arith, fits (with_one before bs), count-with_one s before after bs, same_sockets)

    pub abandons-Fits :
        (s : ConnectionAttachment) (before after sockets : List ConnectionAttachment)
        → Fits limit k (before ++ s ∷ after) sockets
        → Fits limit k (before ++ after) sockets
    abandons-Fits s before after sockets fits bs =
        let same = masked-without_one s before after bs in
        subst (λ ws. count p (delete (among ws) sockets) + count p ws < limit + k) same
          (fits (without_one before bs))

    pub closes-Fits :
        (q : ConnectionAttachment → Bool) (waiting sockets : List ConnectionAttachment)
        → Fits limit k waiting sockets
        → Fits limit k waiting (delete q sockets)
    closes-Fits q waiting sockets fits bs =
        let ws = masked bs waiting in
        omega
          (arith, fits bs, delete-delete q (among ws) sockets, delete-or_right q (among ws) sockets)

    pub Fits-count :
        (waiting sockets : List ConnectionAttachment)
        → Fits limit k waiting sockets
        → count p sockets < limit + k
    Fits-count waiting sockets fits = omega (arith, fits [], delete-none sockets)
      where
        delete-none :
            (xs : List ConnectionAttachment) → count p (delete (λ x. false) xs) ≡ count p xs
        delete-none [] = refl
        delete-none (x ∷ xs) = ground (arith, delete-none xs)
