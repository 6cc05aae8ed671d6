-- ===== src/Session/AckFlow/Chunks.antt =====
-- The ranges that ask for missing datagrams.
use raknet_rust.Common.{
  ==_refl, ℕ, zero, suc, ◌+◌, ◌-◌, ◌*◌, ◌≤◌, ◌<◌, ◌≡◌, refl, sym, ap, ◌∙◌, min, leb, All, ◌⊎◌, inl,
  inr, ◌↔◌, true, false, ◌==◌, ltb, if◌then◌else◌, List, [], ◌∷◌, some, Bool-cases, arith,
}
use raknet_rust.Protocol.Sequence24.{Sequence24, IsSeq, half, modulo, new, next, distance_to, lt}
use raknet_rust.Protocol.Sequence24.Arith.{next-IsSeq, new-IsSeq, distance_to_lem}
use raknet_rust.Protocol.Ack.{SequenceRange, range_of}
use raknet_rust.Protocol.Ack.Cover.{Covers}
use raknet_rust.Session.AckFlow.{AckFlow, push_nack, extend_chunk, push_nacks}

lt_near : (a b : ℕ) → IsSeq a → IsSeq b → distance_to a b < half → lt a b ≡ ltb 0 (distance_to a b)
unfolding lt distance_to
lt_near a b ha hb h = ground arith

step :
    (a b : ℕ)
    → IsSeq a
    → IsSeq b
    → 0 < distance_to a b
    → distance_to (next a) b + 1 ≡ distance_to a b
unfolding distance_to next
step a b ha hb h = ground arith

-- A walk of `n` steps at most from `a` towards `b` has come to `e`.
record Reached (n a b e : ℕ) : Type 0 where
  seq : IsSeq e
  total : distance_to a e + distance_to e b ≡ distance_to a b
  bounded : distance_to a e ≤ n
  stops : (distance_to e b ≡ 0) ⊎ (distance_to a e ≡ n)

self : (a : ℕ) → IsSeq a → distance_to a a ≡ 0
unfolding distance_to
self a h = ground arith

farther :
    (a b e : ℕ)
    → IsSeq a
    → IsSeq b
    → IsSeq e
    → 0 < distance_to a b
    → distance_to (next a) e + distance_to e b ≡ distance_to (next a) b
    → distance_to a e ≡ distance_to (next a) e + 1
unfolding distance_to next
farther a b e ha hb he h t = ground arith

extend_chunk-Reached :
    (n a b : ℕ) → IsSeq a → IsSeq b → distance_to a b < half → Reached n a b (extend_chunk n a b)
unfolding extend_chunk
extend_chunk-Reached zero a b ha hb h = record {
  seq = ha;
  total = omega (arith, self a ha);
  bounded = omega (arith, self a ha);
  stops = inr (self a ha);
}
extend_chunk-Reached (suc n) a b ha hb h = elim (Bool-cases (ltb 0 (distance_to a b))) [
  | inr f ↦
      rw (lt_near a b ha hb h, f)
        record {
          seq = ha;
          total = omega (arith, self a ha);
          bounded = omega (arith, self a ha);
          stops = inl (ground arith);
        }
  | inl t ↦
      let more : 0 < distance_to a b = ground arith in
      let near = step a b ha hb more in
      let r = extend_chunk-Reached n (next a) b (next-IsSeq a) hb (omega (arith, near)) in
      let far = farther a b (extend_chunk n (next a) b) ha hb r.seq more r.total in
      rw (lt_near a b ha hb h, t)
        record {
          seq = r.seq;
          total = omega (arith, r.total, far, near);
          bounded = omega (arith, r.bounded, far);
          stops = ground (arith, r.stops, far);
        }
]

-- Where the inner loop stops: at the end of the gap, or 8191 steps on.
chunk_end_lem :
    (a b : ℕ)
    → IsSeq a
    → IsSeq b
    → distance_to a b < half
    → extend_chunk 8191 a b ≡ new (a + min 8191 (distance_to a b))
chunk_end_lem a b ha hb h =
    let r = extend_chunk-Reached 8191 a b ha hb h in
    let e = extend_chunk 8191 a b in
    let (low, reach, same) = distance_to_lem a e ha r.seq in
    let d : distance_to a e ≡ min 8191 (distance_to a b) =
      ground (arith, r.total, r.bounded, r.stops) in
    sym reach ∙ ap (λ n. new (a + n)) d

-- The ranges that ask for `n` numbers from `a` on: as few as can be, of 8192 numbers at most.
unfoldable pub chunks : ℕ → Sequence24 → ℕ → List SequenceRange
chunks zero a n = []
chunks (suc fuel) a n =
    let rest = chunks fuel (new (a + 8192)) (n - 8192) in
    if n == 0
    then []
    else if leb n 8192
    then range_of a (new (a + (n - 1))) ∷ []
    else range_of a (new (a + 8191)) ∷ rest

-- The numbers from `expected` up to `seq`, without `seq`.
unfoldable pub missing : Sequence24 → Sequence24 → List SequenceRange
missing expected seq = chunks 1024 expected (distance_to expected seq)

abbrev pub push_all : AckFlow → List SequenceRange → ℕ → AckFlow
push_all s [] now = s
push_all s (r ∷ rs) now = push_all (push_nack s r now) rs now

abbrev pub IsAsked : List SequenceRange → Sequence24 → Type 0
IsAsked [] i = ⊥
IsAsked (r ∷ rs) i = Covers r i ⊎ IsAsked rs i

-- What `Ack` can send: 8192 numbers at most.
abbrev pub IsShort : SequenceRange → Type 0
IsShort r = distance_to r.start r.end < 8192

offset : (a n : ℕ) → IsSeq a → n < modulo → distance_to a (new (a + n)) ≡ n
unfolding distance_to new
offset a n ha hn = ground arith

last_chunk :
    (a b : ℕ)
    → IsSeq a
    → IsSeq b
    → distance_to a b < half
    → leb (distance_to a b) 8191 ≡ true
    → (extend_chunk 8191 a b ≡ b)
      × ((distance_to a b + 1 == 0) ≡ false)
      × (new (a + (distance_to a b + 1 - 1)) ≡ b)
last_chunk a b ha hb h t =
    let (low, reach, same) = distance_to_lem a b ha hb in
    let least : min 8191 (distance_to a b) ≡ distance_to a b = ground arith in
    let exact : distance_to a b + 1 - 1 ≡ distance_to a b = omega arith in
    (
      chunk_end_lem a b ha hb h ∙ ap (λ n. new (a + n)) least ∙ reach,
      ground arith,
      ap (λ n. new (a + n)) exact ∙ reach,
    )

full_chunk_steps :
    (a b : ℕ)
    → IsSeq a
    → IsSeq b
    → 8191 < distance_to a b
    → ((new (a + 8191) == b) ≡ false)
      × (next (new (a + 8191)) ≡ new (a + 8192))
      × (distance_to (new (a + 8192)) b + 1 ≡ distance_to a b + 1 - 8192)
unfolding distance_to new next
full_chunk_steps a b ha hb h = (ground arith, ground arith, ground arith)

full_chunk :
    (a b : ℕ)
    → IsSeq a
    → IsSeq b
    → distance_to a b < half
    → leb (distance_to a b) 8191 ≡ false
    → (extend_chunk 8191 a b ≡ new (a + 8191))
      × ((new (a + 8191) == b) ≡ false)
      × (next (new (a + 8191)) ≡ new (a + 8192))
      × (distance_to (new (a + 8192)) b + 1 ≡ distance_to a b + 1 - 8192)
full_chunk a b ha hb h t =
    let least : min 8191 (distance_to a b) ≡ 8191 = ground arith in
    let (x, y, z) = full_chunk_steps a b ha hb (ground arith) in
    (chunk_end_lem a b ha hb h ∙ ap (λ n. new (a + n)) least, x, y, z)

pub push_nacks_lem :
    (fuel : ℕ) (s : AckFlow) (a b now : ℕ)
    → IsSeq a
    → IsSeq b
    → distance_to a b < half
    → distance_to a b < 8192 * fuel
    → push_nacks fuel s a b now ≡ some (push_all s (chunks fuel a (distance_to a b + 1)) now)
unfolding push_nacks chunks
push_nacks_lem zero s a b now ha hb h f = absurd (omega arith)
push_nacks_lem (suc fuel) s a b now ha hb h f = elim (Bool-cases (leb (distance_to a b) 8191)) [
  | inl t ↦
      let (end, some_left, one) = last_chunk a b ha hb h t in
      let few : leb (distance_to a b + 1) 8192 ≡ true = ground arith in
      let there : new (a + (distance_to a b + 1 - 1)) ≡ b = one in
      rw (end, ==_refl b, some_left, few, there) refl
  | inr t ↦
      let (end, beyond, on, left) = full_chunk a b ha hb h t in
      let some_left : (distance_to a b + 1 == 0) ≡ false = ground arith in
      let many : leb (distance_to a b + 1) 8192 ≡ false = ground arith in
      let first = push_nack s (range_of a (new (a + 8191))) now in
      let n : distance_to (new (a + 8192)) b < 8192 * fuel = ground (arith, left) in
      let rest =
        push_nacks_lem fuel first (new (a + 8192)) b now (new-IsSeq _) hb (ground (arith, left))
          n in
      rw (end, beyond, on, some_left, many, ← left) rest
]

next_chunk :
    (a i n : ℕ)
    → IsSeq a
    → IsSeq i
    → 8192 < n
    → n ≤ half
    → ((distance_to a i ≤ 8191) ⊎ (distance_to (new (a + 8192)) i < n - 8192))
      ↔ (distance_to a i < n)
unfolding distance_to new
next_chunk a i n ha hi l h = (λ e. ground arith, λ e. ground arith)

-- The ranges hold the `n` numbers and no other.
pub chunks_lem :
    (fuel a n i : ℕ)
    → IsSeq a
    → IsSeq i
    → n ≤ half
    → n ≤ 8192 * fuel
    → (IsAsked (chunks fuel a n) i ↔ (distance_to a i < n)) × All IsShort (chunks fuel a n)
unfolding chunks
chunks_lem zero a n i ha hi h f = ((λ e. absurd e, λ l. absurd (omega arith)), tt)
chunks_lem (suc fuel) a n i ha hi h f = elim (Bool-cases (n == 0)) [
  | inl z ↦ rw z ((λ e. absurd e, λ l. absurd (ground arith)), tt)
  | inr z ↦ elim (Bool-cases (leb n 8192)) [
    | inl t ↦
        let o : distance_to a (new (a + (n - 1))) ≡ n - 1 = offset a (n - 1) ha (omega arith) in
        rw (z, t) ((λ e. ground (arith, o), λ l. inl (ground (arith, o))), (ground (arith, o), tt))
    | inr t ↦
        let o : distance_to a (new (a + 8191)) ≡ 8191 = offset a 8191 ha (omega arith) in
        let (there, back) = next_chunk a i n ha hi (ground arith) h in
        let ((asked, held), short) =
          chunks_lem fuel (new (a + 8192)) (n - 8192) i (new-IsSeq _) hi (omega arith)
            (omega arith) in
        rw (z, t)
          (
            (
              λ e. elim e [
                | inl c ↦ there (inl (omega (arith, o)))
                | inr r ↦ there (inr (asked r))
              ],
              λ l. elim (back l) [ inl c ↦ inl (omega (arith, o)) | inr r ↦ inr (held r) ],
            ),
            (omega (arith, o), short),
          )
  ]
]
