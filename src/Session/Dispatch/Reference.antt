-- ===== src/Session/Dispatch/Reference.antt =====
-- A heap that takes the first of the frames of least weight.
use raknet_rust.Common.{
  ℕ, suc, ◌≤◌, ◌<◌, ◌≡◌, refl, subst, inl, inr, leb, if◌then◌else◌, min, List, [], ◌∷◌, length, All,
  some, Bool-cases, arith,
}
use raknet_rust.Session.Outgoing.{QueuedFrame}
use raknet_rust.Session.Dispatch.{take_at, MinHeap}
use raknet_rust.Session.Dispatch.Pick.{take_at_lem}

abbrev least_from : ℕ → List QueuedFrame → ℕ
least_from w [] = w
least_from w (q ∷ qs) = least_from (min w q.weight) qs

abbrev find : ℕ → List QueuedFrame → ℕ
find w [] = 0
find w (q ∷ qs) = if leb q.weight w then 0 else suc (find w qs)

abbrev pub top_of : List QueuedFrame → ℕ
top_of [] = 0
top_of (q ∷ qs) = find (least_from q.weight qs) (q ∷ qs)

least_from-le : (w : ℕ) (qs : List QueuedFrame) → least_from w qs ≤ w
least_from-le w [] = omega arith
least_from-le w (q ∷ qs) = ground (arith, least_from-le (min w q.weight) qs)

least_from-All : (w : ℕ) (qs : List QueuedFrame) → All (λ p. least_from w qs ≤ p.weight) qs
least_from-All w [] = tt
least_from-All w (q ∷ qs) =
    (ground (arith, least_from-le (min w q.weight) qs), least_from-All (min w q.weight) qs)

-- A weight that is least is found.
least_from-found :
    (w v : ℕ) (qs : List QueuedFrame) → least_from w qs ≡ v → v < w → find v qs < length qs
least_from-found w v [] e l = absurd (omega arith)
least_from-found w v (q ∷ qs) e l = elim (Bool-cases (leb q.weight v)) [
  | inl t ↦ rw t (omega arith)
  | inr f ↦ rw f (omega (arith, least_from-found (min w q.weight) v qs e (ground arith)))
]

pub top_of-lt : (h : List QueuedFrame) → 0 < length h → top_of h < length h
top_of-lt [] l = l
top_of-lt (q ∷ qs) l = elim (Bool-cases (leb q.weight (least_from q.weight qs))) [
  | inl t ↦ rw t l
  | inr f ↦ rw f (omega (arith, least_from-found q.weight _ qs refl (ground arith)))
]

find_lem :
    (w : ℕ) (h : List QueuedFrame)
    → find w h < length h
    → (q : QueuedFrame) × (rest : List QueuedFrame) × (take_at h (find w h) ≡ some (q, rest))
      × (q.weight ≤ w)
unfolding take_at
find_lem w [] l = absurd (omega arith)
find_lem w (x ∷ xs) l = elim (Bool-cases (leb x.weight w)) [
  | inl t ↦ (x, xs, rw t refl, ground arith)
  | inr f ↦
      let (q, rest, e, le) = find_lem w xs (ground arith) in
      (q, x ∷ rest, rw (f, take_at, e) refl, le)
]

at_least :
    (w v : ℕ) (xs : List QueuedFrame)
    → v ≤ w
    → All (λ p. w ≤ p.weight) xs
    → All (λ p. v ≤ p.weight) xs
at_least w v [] l h = tt
at_least w v (x ∷ xs) l h = (omega (arith, l, h.0), at_least w v xs l h.1)

-- What `take_at` returns is one frame and one list.
heavier :
    (w : ℕ) (h : List QueuedFrame) (i : ℕ) (q p : QueuedFrame) (rest ps : List QueuedFrame)
    → take_at h i ≡ some (q, rest)
    → take_at h i ≡ some (p, ps)
    → p.weight ≤ w
    → i < length h
    → All (λ x. w ≤ x.weight) h
    → All (λ x. q.weight ≤ x.weight) rest
heavier w h i q p rest ps e f le l all =
    let (x, xs, g, same) = take_at_lem h i l in
    let first : p ≡ q = cc in
    let others : xs ≡ rest = cc in
    let lighter : q.weight ≤ w = subst (λ y. y.weight ≤ w) first le in
    subst (λ ys. All (λ y. q.weight ≤ y.weight) ys) others
      (at_least w q.weight xs lighter ((same.all (λ y. w ≤ y.weight)).1 all).1)

pub top_of-least :
    (h : List QueuedFrame) (q : QueuedFrame) (rest : List QueuedFrame)
    → take_at h (top_of h) ≡ some (q, rest)
    → All (λ p. q.weight ≤ p.weight) rest
top_of-least [] q rest e = absurd (unfold take_at in cc)
top_of-least (x ∷ xs) q rest e =
    let w = least_from x.weight xs in
    let l = top_of-lt (x ∷ xs) (omega arith) in
    let (p, ps, f, le) = find_lem w (x ∷ xs) l in
    heavier w (x ∷ xs) (top_of (x ∷ xs)) q p rest ps e f le l
      (least_from-le x.weight xs, least_from-All x.weight xs)

instance abbrev pub first_least : MinHeap
first_least = record { top = top_of; top-lt = top_of-lt; top-least = top_of-least }
