-- ===== src/Session/AckQueue/Bounds.antt =====
-- What the queue keeps, and what is popped from it.
use raknet_rust.Common.{
  ℕ, zero, suc, ◌+◌, ◌-◌, ◌≤◌, ◌<◌, ◌≡◌, refl, ◌∙◌, ap, max, ◌⊎◌, inl, inr, false, not, ◌&&◌, ◌==◌,
  ltb, leb, List, [], ◌∷◌, ◌++◌, length, length-append, none, some, arith, Bool-cases, Option-cases,
}
use raknet_rust.Protocol.Ack.{SequenceRange, IsRange, split_wrapping}
use raknet_rust.Protocol.Ack.Cover.{split_wrapping-Covers}
use raknet_rust.Session.AckQueue.{
  AckQueue, join_back, push_into, push, wire_size, pop_loop, pop_for_mtu,
}

length-join_back :
    (queue : List SequenceRange) (range : SequenceRange) (q : List SequenceRange)
    → join_back queue range ≡ some q
    → length q ≡ length queue
unfolding join_back
length-join_back [] range q e = cc
length-join_back (last ∷ []) range q e = ground (arith, e)
length-join_back (r ∷ s ∷ rs) range q e = elim (Option-cases (join_back (s ∷ rs) range)) [
  | inl n ↦ ground (arith, n, e)
  | inr (p, f) ↦ let r = length-join_back (s ∷ rs) range p f in ground (arith, r, f, e)
]

length-push_into :
    (fuel max : ℕ) (queue : List SequenceRange) (range : SequenceRange)
    → length queue ≤ max
    → length (push_into fuel max queue range) ≤ max
unfolding push_into
length-push_into zero max queue range h = h
length-push_into (suc fuel) max queue range h = elim (Bool-cases (leb max (length queue))) [
  | inl f ↦ rw f h
  | inr f ↦ elim (Option-cases (join_back queue range)) [
    | inr (q, e) ↦ rw (f, e) (omega (arith, length-join_back queue range q e))
    | inl e ↦ elim (Option-cases (split_wrapping range)) [
      | inr ((left, right), s) ↦
          rw (f, e, s)
            (length-push_into fuel max (push_into fuel max queue left) right
              (length-push_into fuel max queue left h))
      | inl s ↦ rw (f, e, s) (ground (arith, f, length-append queue (range ∷ [])))
    ]
  ]
]

-- The queue never has more ranges than its limit.
pub length-push :
    (q : AckQueue) (range : SequenceRange)
    → length q.queue ≤ q.max_ranges
    → length (push q range).queue ≤ (push q range).max_ranges
unfolding push
length-push q range h = length-push_into 2 q.max_ranges q.queue range h

abbrev pub wire_sizes : List SequenceRange → ℕ
wire_sizes [] = 0
wire_sizes (r ∷ rs) = wire_size r + wire_sizes rs

-- No further range would have been taken.
abbrev pub Stops : ℕ → ℕ → ℕ → ℕ → List SequenceRange → Type 0
Stops mtu limit used count [] = Unit {0}
Stops mtu limit used count (r ∷ rs) = (limit ≤ count) ⊎ ((0 < count) × (mtu < used + wire_size r))

-- Nothing is taken, or the first range alone, or what is taken fits.
abbrev pub Fits : ℕ → ℕ → ℕ → List SequenceRange → Type 0
Fits mtu used count out =
    ((wire_sizes out ≡ 0) × (length out ≡ 0))
    ⊎ (((count ≡ 0) × (length out ≡ 1)) ⊎ (used + wire_sizes out ≤ mtu))

Fits-cons :
    (mtu used count : ℕ) (r : SequenceRange) (out : List SequenceRange)
    → (not (count == 0) && ltb mtu (used + wire_size r)) ≡ false
    → Fits mtu (used + wire_size r) (count + 1) out
    → Fits mtu used count (r ∷ out)
Fits-cons mtu used count r out g (inl (z, l)) = elim (Bool-cases (count == 0)) [
  | inl e ↦ inr (inl (ground (arith, e), ground arith))
  | inr e ↦ inr (inr (ground (arith, e, g, z)))
]
Fits-cons mtu used count r out g (inr (inl (z, l))) = absurd (omega (arith, z))
Fits-cons mtu used count r out g (inr (inr h)) = inr (inr (omega (arith, h)))

Stops-shift :
    (mtu limit used used' count count' : ℕ) (rest : List SequenceRange)
    → used ≡ used'
    → count ≡ count'
    → Stops mtu limit used count rest
    → Stops mtu limit used' count' rest
Stops-shift mtu limit used used' count count' [] e f h = tt
Stops-shift mtu limit used used' count count' (r ∷ rest) e f h = ground (arith, e, f, h)

pop_loop_lem :
    (mtu limit used count : ℕ) (queue : List SequenceRange)
    → let out = (pop_loop mtu limit used count queue).0 in
      let rest = (pop_loop mtu limit used count queue).1 in
      (out ++ rest ≡ queue)
      × (length out ≤ limit - count)
      × Fits mtu used count out
      × Stops mtu limit (used + wire_sizes out) (count + length out) rest
unfolding pop_loop
pop_loop_lem mtu limit used count [] = (refl, omega arith, inl (refl, refl), tt)
pop_loop_lem mtu limit used count (r ∷ queue) =
    let (out, rest) = pop_loop mtu limit (used + wire_size r) (count + 1) queue in
    let (a, b, c, d) = pop_loop_lem mtu limit (used + wire_size r) (count + 1) queue in
    elim (Bool-cases (leb limit count)) [
      | inl f ↦ rw f (refl, omega arith, inl (refl, refl), inl (ground (arith, f)))
      | inr f ↦ elim (Bool-cases (not (count == 0) && ltb mtu (used + wire_size r))) [
        | inl g ↦ rw (f, g) (refl, omega arith, inl (refl, refl), inr (ground (arith, g)))
        | inr g ↦
            rw (f, g)
              (
                ap (λ t. r ∷ t) a,
                ground (arith, b, f),
                Fits-cons mtu used count r out g c,
                Stops-shift mtu limit (used + wire_size r + wire_sizes out)
                    (used + (wire_size r + wire_sizes out)) (count + 1 + length out)
                    (count + suc (length out)) rest (omega arith) (omega arith) d,
              )
      ]
    ]

-- What is popped and what stays is the queue as it was, in its order. At most `max_ranges` are popped,
-- and they fit the MTU behind the overhead, except that the first range leaves whatever its size. And
-- as many are popped as fit: the loop stops at the limit, or in front of a range that does not fit.
pub pop_for_mtu_lem :
    (q : AckQueue) (mtu base_overhead max_ranges : ℕ)
    → let out = (pop_for_mtu q mtu base_overhead max_ranges).1 in
      let rest = (pop_for_mtu q mtu base_overhead max_ranges).0.queue in
      (out ++ rest ≡ q.queue)
      × (length out ≤ max_ranges)
      × Fits mtu base_overhead 0 out
      × Stops mtu max_ranges (base_overhead + wire_sizes out) (length out) rest
unfolding pop_for_mtu
pop_for_mtu_lem q mtu base max_ranges =
    let (out, rest) = pop_loop mtu max_ranges base 0 q.queue in
    let (a, b, c, d) = pop_loop_lem mtu max_ranges base 0 q.queue in
    elim (Bool-cases (max_ranges == 0)) [
      | inr f ↦ rw f (
        a,
        omega (arith, b),
        c,
        Stops-shift mtu max_ranges (base + wire_sizes out) (base + wire_sizes out) (0 + length out)
            (length out) rest refl (omega arith) d,
      )
      | inl f ↦ rw f (refl, omega arith, inl (refl, refl), stops q.queue (ground (arith, f)))
    ]
  where
    stops : (rs : List SequenceRange) → max_ranges ≤ 0 → Stops mtu max_ranges (base + 0) 0 rs
    stops [] h = tt
    stops (r ∷ rs) h = inl h

halves_lem :
    (range left right : SequenceRange)
    → IsRange range
    → split_wrapping range ≡ some (left, right)
    → (split_wrapping left ≡ none) × (split_wrapping right ≡ none)
unfolding split_wrapping
halves_lem range left right h e =
    let (l, r, c) = split_wrapping-Covers range left right 0 h (omega arith) e in
    (ground (arith, l), ground (arith, r))

push_flat :
    (n limit : ℕ) (queue : List SequenceRange) (range : SequenceRange)
    → split_wrapping range ≡ none
    → push_into (suc n) limit queue range ≡ push_into 1 limit queue range
unfolding push_into
push_flat n limit queue range e = elim (Bool-cases (leb limit (length queue))) [
  | inl f ↦ rw f refl
  | inr f ↦ elim (Option-cases (join_back queue range)) [
    | inr (q, j) ↦ rw (f, j) refl
    | inl j ↦ rw (f, j, e) refl
  ]
]

-- The halves of a range that wraps are pushed in one round each.
push_halves :
    (n limit : ℕ) (queue : List SequenceRange) (range left right : SequenceRange)
    → IsRange range
    → split_wrapping range ≡ some (left, right)
    → push_into (suc n) limit (push_into (suc n) limit queue left) right
      ≡ push_into 1 limit (push_into 1 limit queue left) right
push_halves n limit queue range left right h e =
    let (l, r) = halves_lem range left right h e in
    push_flat n limit _ right r
    ∙ ap (λ q. push_into 1 limit q right) (push_flat n limit queue left l)

-- Two rounds of `push_into` are enough for any range: more change nothing.
pub push_fuel :
    (n limit : ℕ) (queue : List SequenceRange) (range : SequenceRange)
    → IsRange range
    → push_into (suc (suc n)) limit queue range ≡ push_into 2 limit queue range
unfolding push_into
push_fuel n limit queue range h = elim (Bool-cases (leb limit (length queue))) [
  | inl f ↦ rw f refl
  | inr f ↦ elim (Option-cases (join_back queue range)) [
    | inr (q, j) ↦ rw (f, j) refl
    | inl j ↦ elim (Option-cases (split_wrapping range)) [
      | inl e ↦ rw (f, j, e) refl
      | inr ((left, right), e) ↦ rw (f, j, e) (push_halves n limit queue range left right h e)
    ]
  ]
]
