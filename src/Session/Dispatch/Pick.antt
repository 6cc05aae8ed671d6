-- ===== src/Session/Dispatch/Pick.antt =====
-- Which frame of the queue is taken next.
use mathlib.Core.List.{Perm}
use mathlib.Core.List.Perm
use raknet_rust.Common.{
  ℕ, zero, suc, ◌+◌, ◌≤◌, ◌<◌, ◌≡◌, ◌↔◌, refl, ap, ◌∙◌, subst, ◌⊎◌, inl, inr, Bool, true, false,
  List, [], ◌∷◌, ◌++◌, append_assoc, length, length-append, All, All-append, Option, none, some,
  Bool-cases, arith,
}
use raknet_rust.Session.Outgoing.{QueuedFrame, Sender}
use raknet_rust.Session.Outgoing.Parts.{queued_sizes, queued_sizes-append}
use raknet_rust.Session.Dispatch.{
  take_at, MinHeap, fits, pop, pop_loop, pop_next_frame_for_datagram,
}

-- The same frames, in any order.
pub record Same (xs ys : List QueuedFrame) : Type 1 where
  pub perm : Perm xs ys
  pub count : length xs ≡ length ys
  pub sizes : queued_sizes xs ≡ queued_sizes ys
  pub all : (P : QueuedFrame → Type 0) → All P xs ↔ All P ys

pub Same-refl : (xs : List QueuedFrame) → Same xs xs
Same-refl xs = record {
  perm = Perm.refl xs;
  count = refl;
  sizes = refl;
  all = λ P. (λ h. h, λ h. h);
}

pub Same-trans : (xs ys zs : List QueuedFrame) → Same xs ys → Same ys zs → Same xs zs
Same-trans xs ys zs a b = record {
  perm = Perm.trans a.perm b.perm;
  count = a.count ∙ b.count;
  sizes = a.sizes ∙ b.sizes;
  all = λ P. (λ h. (b.all P).0 ((a.all P).0 h), λ h. (a.all P).1 ((b.all P).1 h));
}

pub Same-cons : (x : QueuedFrame) (xs ys : List QueuedFrame) → Same xs ys → Same (x ∷ xs) (x ∷ ys)
Same-cons x xs ys a = record {
  perm = Perm.cons x a.perm;
  count = ap suc a.count;
  sizes = ap (λ n. x.encoded_size + n) a.sizes;
  all = λ P. (λ h. (h.0, (a.all P).0 h.1), λ h. (h.0, (a.all P).1 h.1));
}

Same-swap : (x y : QueuedFrame) (xs : List QueuedFrame) → Same (x ∷ y ∷ xs) (y ∷ x ∷ xs)
Same-swap x y xs = record {
  perm = Perm.swap y x xs;
  count = refl;
  sizes = omega arith;
  all = λ P. (λ h. (h.1.0, (h.0, h.1.1)), λ h. (h.1.0, (h.0, h.1.1)));
}

pub All-split :
    (P : QueuedFrame → Type 0) (xs ys : List QueuedFrame) → All P (xs ++ ys) → All P xs × All P ys
All-split P [] ys h = (tt, h)
All-split P (x ∷ xs) ys h = let (l, r) = All-split P xs ys h.1 in ((h.0, l), r)

pub Same-append_right : (xs ys zs : List QueuedFrame) → Same xs ys → Same (xs ++ zs) (ys ++ zs)
Same-append_right xs ys zs a = record {
  perm = Perm.append_right zs a.perm;
  count = omega (arith, a.count, length-append xs zs, length-append ys zs);
  sizes = omega (arith, a.sizes, queued_sizes-append xs zs, queued_sizes-append ys zs);
  all = λ P. (
    λ h. let (l, r) = All-split P xs zs h in All-append P ys zs ((a.all P).0 l) r,
    λ h. let (l, r) = All-split P ys zs h in All-append P xs zs ((a.all P).1 l) r,
  );
}

-- A frame in the middle may stand in front.
pub Same-middle :
    (x : QueuedFrame) (xs ys : List QueuedFrame) → Same (x ∷ xs ++ ys) (xs ++ (x ∷ ys))
Same-middle x [] ys = Same-refl (x ∷ ys)
Same-middle x (y ∷ xs) ys =
    Same-trans _ _ _ (Same-swap x y (xs ++ ys)) (Same-cons y _ _ (Same-middle x xs ys))

-- A frame at the end may stand in front.
Same-back : (x : QueuedFrame) (xs : List QueuedFrame) → Same (xs ++ (x ∷ [])) (x ∷ xs)
Same-back x [] = Same-refl (x ∷ [])
Same-back x (y ∷ xs) = Same-trans _ _ _ (Same-cons y _ _ (Same-back x xs)) (Same-swap y x xs)

pub take_at_lem :
    (h : List QueuedFrame) (i : ℕ)
    → i < length h
    → (q : QueuedFrame) × (rest : List QueuedFrame) × (take_at h i ≡ some (q, rest))
      × Same (q ∷ rest) h
unfolding take_at
take_at_lem [] i l = absurd (omega arith)
take_at_lem (x ∷ xs) zero l = (x, xs, refl, Same-refl (x ∷ xs))
take_at_lem (x ∷ xs) (suc i) l =
    let (q, rest, e, same) = take_at_lem xs i (omega arith) in
    (
      q,
      x ∷ rest,
      rw (take_at, e) refl,
      Same-trans _ _ _ (Same-swap q x rest) (Same-cons x _ _ same),
    )

-- What the loop returns for a heap and the frames that were deferred: a frame that passes the test, and
-- has the least weight of those that do, with all the others; or all the frames, of which none passes.
abbrev pub IsPicked :
    (QueuedFrame → Bool)
    → List QueuedFrame
    → List QueuedFrame
    → Option QueuedFrame
    → List QueuedFrame
    → Type 1
IsPicked test heap deferred none rest =
    All (λ p. test p ≡ false) heap × Same rest (heap ++ deferred)
IsPicked test heap deferred (some q) rest =
    (test q ≡ true)
    × All (λ p. test p ≡ true → q.weight ≤ p.weight) heap
    × Same (q ∷ rest) (heap ++ deferred)

All-mono :
    (P Q : QueuedFrame → Type 0) (xs : List QueuedFrame)
    → ((x : QueuedFrame) → P x → Q x)
    → All P xs
    → All Q xs
All-mono P Q [] k h = tt
All-mono P Q (x ∷ xs) k h = (k x h.0, All-mono P Q xs k h.1)

moved :
    (heap deferred : List QueuedFrame) (q : QueuedFrame) (rest : List QueuedFrame)
    → Same (q ∷ rest) heap
    → Same (rest ++ (deferred ++ (q ∷ []))) (heap ++ deferred)
moved heap deferred q rest same =
    Same-trans _ _ _
      (subst (λ l. Same l (q ∷ rest ++ deferred)) (append_assoc rest deferred (q ∷ []))
        (Same-back q (rest ++ deferred)))
      (Same-append_right (q ∷ rest) heap deferred same)

module _ ⦃h : MinHeap⦄ where
  pop_cases :
      (heap : List QueuedFrame)
      → (heap ≡ [])
        ⊎ ((q : QueuedFrame) × (rest : List QueuedFrame) × (pop heap ≡ some (q, rest))
            × Same (q ∷ rest) heap
            × All (λ p. q.weight ≤ p.weight) rest)
  pop_cases [] = inl refl
  pop_cases (x ∷ xs) =
      let (q, rest, e, same) =
        take_at_lem (x ∷ xs) (h.top (x ∷ xs)) (h.top-lt (x ∷ xs) (omega arith)) in
      inr (q, rest, e, same, h.top-least (x ∷ xs) q rest e)

  nothing : (heap : List QueuedFrame) → heap ≡ [] → pop heap ≡ none
  unfolding take_at
  nothing [] e = refl
  nothing (x ∷ xs) e = cc

  -- A frame that is deferred does not pass.
  later :
      (test : QueuedFrame → Bool) (heap deferred : List QueuedFrame) (q : QueuedFrame)
      (rest : List QueuedFrame) (picked : Option QueuedFrame) (left : List QueuedFrame)
      → test q ≡ false
      → Same (q ∷ rest) heap
      → IsPicked test rest (deferred ++ (q ∷ [])) picked left
      → IsPicked test heap deferred picked left
  later test heap deferred q rest none left f same w = (
    (same.all (λ p. test p ≡ false)).0 (f, w.0),
    Same-trans _ _ _ w.1 (moved heap deferred q rest same),
  )
  later test heap deferred q rest (some p) left f same w = (
    w.0,
    (same.all (λ x. test x ≡ true → p.weight ≤ x.weight)).0 (λ t. absurd (cc), w.1),
    Same-trans _ _ _ w.2 (moved heap deferred q rest same),
  )

  pop_loop-IsPicked :
      (fuel : ℕ) (test : QueuedFrame → Bool) (heap deferred : List QueuedFrame)
      → length heap < fuel
      → (r : Option QueuedFrame × List QueuedFrame) × (pop_loop fuel test heap deferred ≡ some r)
        × IsPicked test heap deferred r.0 r.1
  unfolding pop_loop
  pop_loop-IsPicked zero test heap deferred l = absurd (omega arith)
  pop_loop-IsPicked (suc fuel) test heap deferred l = elim (pop_cases heap) [
    | inl e ↦ (
      (none, heap ++ deferred),
      rw (pop_loop, nothing heap e) refl,
      (rw e tt, Same-refl (heap ++ deferred)),
    )
    | inr (q, rest, e, same, lightest) ↦ elim (Bool-cases (test q)) [
      | inl t ↦ (
        (some q, rest ++ deferred),
        rw (pop_loop, e, t) refl,
        (
          t,
          (same.all (λ p. test p ≡ true → q.weight ≤ p.weight)).0
              (λ x. omega arith, All-mono _ _ rest (λ p le x. le) lightest),
          Same-append_right (q ∷ rest) heap deferred same,
        ),
      )
      | inr f ↦
          let shorter = same.count in
          let (r, e', w) = pop_loop-IsPicked fuel test rest (deferred ++ (q ∷ [])) (omega arith) in
          (r, rw (pop_loop, e, f) e', later test heap deferred q rest r.0 r.1 f same w)
    ]
  ]

  -- The loop ends, with a frame that fits what is left of the datagram and of the budget, and is allowed,
  -- and of those has the least weight; or with none, and then none of the frames does. All other frames
  -- stay in the queue.
  pub pop_next_frame_for_datagram-IsPicked :
      (s : Sender) (allow_reliable : Bool) (datagram_size remaining : ℕ)
      → (r : Option QueuedFrame × List QueuedFrame) × (pop_next_frame_for_datagram s allow_reliable
            datagram_size remaining
          ≡ some r)
        × IsPicked (fits s.mtu allow_reliable datagram_size remaining) s.outgoing_heap [] r.0 r.1
  unfolding pop_next_frame_for_datagram
  pop_next_frame_for_datagram-IsPicked s allow_reliable datagram_size remaining =
      pop_loop-IsPicked (length s.outgoing_heap + 1) _ s.outgoing_heap [] (omega arith)
