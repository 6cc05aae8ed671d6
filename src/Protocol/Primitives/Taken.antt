-- ===== src/Protocol/Primitives/Taken.antt =====
-- What a successful read returns, and how much of the source it takes.
use raknet_rust.Common.{
  ℕ, suc, ◌+◌, ◌^◌, ◌≤◌, ◌<◌, ◌≡◌, ◌⊎◌, subst, ltb, ◌==◌, drop, List, [], ◌∷◌, length, take,
  length-take, length-drop, All, All-take, All-drop, IsByte, Post, returns, fails, Bool-cases, inl,
  inr, arith,
}
use raknet_rust.Protocol.Buffers.{BufInts}
use raknet_rust.Protocol.Primitives.{
  decode_u24, decode_bool, decode_u8, decode_bytes, decode_int, decode_addr,
}

-- `rest` is made of bytes, and at least `n` bytes of `src` are gone.
abbrev pub Rest : ℕ → List ℕ → List ℕ → Type 0
Rest n src rest = All IsByte rest × (length rest + n ≤ length src)

pub decode_u8-Post :
    (src : List ℕ) → All IsByte src → Post (λ p. (p.0 < 256) × Rest 1 src p.1) (decode_u8 src)
unfolding decode_u8
decode_u8-Post [] h = fails
decode_u8-Post (b ∷ src) h = returns (h.0, (h.1, omega arith))

pub decode_bool-Post :
    (src : List ℕ) → All IsByte src → Post (λ p. Rest 1 src p.1) (decode_bool src)
unfolding decode_bool
decode_bool-Post [] h = fails
decode_bool-Post (b ∷ src) h = returns (h.1, omega arith)

pub decode_u24-Post :
    (src : List ℕ)
    → All IsByte src
    → Post (λ p. (p.0 < 16_777_216) × Rest 3 src p.1) (decode_u24 src)
unfolding decode_u24
decode_u24-Post (a ∷ b ∷ c ∷ src) h = returns (omega arith, (h.1.1.1, omega arith))
decode_u24-Post _ h = fails

pub decode_bytes-Post :
    (n : ℕ) (src : List ℕ)
    → All IsByte src
    → Post (λ p. (length p.0 ≡ n) × All IsByte p.0 × Rest n src p.1) (decode_bytes n src)
unfolding decode_bytes
decode_bytes-Post n src h = elim (Bool-cases (ltb (length src) n)) [
  | inl e ↦ rw e fails
  | inr e ↦
      let enough : n ≤ length src = ground arith in
      rw e (
        returns (
          length-take n src enough,
          All-take IsByte n src h,
          (All-drop IsByte n src h, omega (arith, length-drop n src)),
        ))
]

module _ ⦃io : BufInts⦄ where
  pub decode_int-Post :
      (w : ℕ) (src : List ℕ)
      → All IsByte src
      → Post (λ p. (p.0 < 256 ^ w) × Rest w src p.1) (decode_int w src)
  unfolding decode_int
  decode_int-Post w src h = elim (Bool-cases (ltb (length src) w)) [
    | inl e ↦ rw e fails
    | inr e ↦
        let enough : w ≤ length src = ground arith in
        rw e (
          returns (
            subst (λ k. io.get_be (take w src) < 256 ^ k) (length-take w src enough)
                (io.get_be-lt (take w src) (All-take IsByte w src h)),
            (All-drop IsByte w src h, omega (arith, length-drop w src)),
          ))
  ]

-- Exactly `n` elements are gone from `src`.
abbrev pub Took : ℕ → List ℕ → List ℕ → Type 0
Took n src rest = length rest + n ≡ length src

module _ ⦃io : BufInts⦄ where
  pub decode_int-Took : (w : ℕ) (src : List ℕ) → Post (λ p. Took w src p.1) (decode_int w src)
  unfolding decode_int
  decode_int-Took w src = elim (Bool-cases (ltb (length src) w)) [
    | inl e ↦ rw e fails
    | inr e ↦ rw e (returns (ground (arith, length-drop w src)))
  ]

  -- An address takes 7 or 29 bytes, its version included.
  pub decode_addr-Took :
      (src : List ℕ) → Post (λ p. Took 7 src p.1 ⊎ Took 29 src p.1) (decode_addr src)
  unfolding decode_addr
  decode_addr-Took [] = fails
  decode_addr-Took (version ∷ src) = elim (Bool-cases (version == 4)) [
    | inl four ↦ rw four (elim (Bool-cases (ltb (length src) 6)) [
      | inl e ↦ rw e fails
      | inr e ↦ rw e (returns (inl (ground (arith, length-drop 6 src))))
    ])
    | inr other ↦ rw other (elim (Bool-cases (version == 6)) [
      | inl six ↦ rw six (elim (Bool-cases (ltb (length src) 28)) [
        | inl e ↦ rw e fails
        | inr e ↦ rw e (returns (inr (taken src (ground arith))))
      ])
      | inr neither ↦ rw neither fails
    ])
  ]
    where
      taken :
          (src : List ℕ)
          → 28 ≤ length src
          → length (drop 4 (drop 16 (drop 4 (drop 2 (drop 2 src))))) + 29 ≡ suc (length src)
      taken src h = omega (
        arith,
        length-drop 4 (drop 16 (drop 4 (drop 2 (drop 2 src)))),
        length-drop 16 (drop 4 (drop 2 (drop 2 src))),
        length-drop 4 (drop 2 (drop 2 src)),
        length-drop 2 (drop 2 src),
        length-drop 2 src,
      )
