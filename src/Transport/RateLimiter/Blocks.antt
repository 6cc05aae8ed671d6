-- ===== src/Transport/RateLimiter/Blocks.antt =====
-- Blocks that end, and exceptions.
use raknet_rust.Common.{
  ◌⊎◌, ◌<◌, Option-cases, ℕ, suc, ◌-◌, ◌≤◌, ◌≡◌, ◌↔◌, refl, ap, ◌∙◌, inl, inr, true, false, ◌==◌,
  ltb, leb, if◌then◌else◌, List, [], ◌∷◌, none, some, Bool-cases, arith,
}
use raknet_rust.Common.Map.{lookup, Above, lookup-below}
use raknet_rust.Transport.RateLimiter.{
  BlockReason, rate_exceeded, allow, global_limit_reached, ip_blocked, BlockState, RateLimiter, has,
  reset_window_state, rotate_window_if_needed, is_expired, retain_blocks, count_unblocked,
  prune_expired_blocks, tick, set_block, block_address_for_with_reason, count_of, check_count,
  check_blocked, check_ticked, check,
}
use raknet_rust.Transport.RateLimiter.Bounds.{IsLimiter}

-- The block of an address after those that have ended are dropped.
lookup-retain_blocks :
    (n now ip : ℕ) (m : List (ℕ × BlockState))
    → Above n m
    → lookup ip (retain_blocks now m).0
      ≡ elim (lookup ip m) [ none ↦ none | some s ↦ if is_expired now s then none else some s ]
unfolding lookup retain_blocks
lookup-retain_blocks n now ip [] s = refl
lookup-retain_blocks n now ip ((j, b) ∷ m) s =
    let rest = lookup-retain_blocks (suc j) now ip m s.1 in
    elim (Bool-cases (is_expired now b)) [
      | inl t ↦ elim (Bool-cases (j == ip)) [
        | inl e ↦
            let gone : lookup ip m ≡ none = lookup-below (suc j) ip m s.1 (ground arith) in
            rw (t, e, t) (rest ∙ rw gone refl)
        | inr d ↦ rw (t, d) rest
      ]
      | inr f ↦ elim (Bool-cases (j == ip)) [ inl e ↦ rw (f, e, f) refl | inr d ↦ rw (f, d) rest ]
    ]

rotate-blocked : (l : RateLimiter) (now : ℕ) → (rotate_window_if_needed l now).blocked ≡ l.blocked
unfolding rotate_window_if_needed reset_window_state
rotate-blocked l now = elim (Bool-cases (ltb (now - l.window_start) l.window)) [
  | inl t ↦ rw t refl
  | inr f ↦ rw f refl
]

rotate-exceptions :
    (l : RateLimiter) (now : ℕ) → (rotate_window_if_needed l now).exceptions ≡ l.exceptions
unfolding rotate_window_if_needed reset_window_state
rotate-exceptions l now = elim (Bool-cases (ltb (now - l.window_start) l.window)) [
  | inl t ↦ rw t refl
  | inr f ↦ rw f refl
]

tick-blocked :
    (l : RateLimiter) (now ip : ℕ) (s : BlockState)
    → Above 0 l.blocked
    → lookup ip l.blocked ≡ some s
    → lookup ip (tick l now).blocked ≡ (if is_expired now s then none else some s)
unfolding tick prune_expired_blocks count_unblocked
tick-blocked l now ip s v e =
    ap (λ m. lookup ip (retain_blocks now m).0) (rotate-blocked l now)
    ∙ lookup-retain_blocks 0 now ip l.blocked v
    ∙ rw e refl

pub tick-exceptions : (l : RateLimiter) (now : ℕ) → (tick l now).exceptions ≡ l.exceptions
unfolding tick prune_expired_blocks count_unblocked
tick-exceptions l now = rotate-exceptions l now

-- An address that is not blocked is not refused as one that was blocked before.
fresh_decision :
    (l : RateLimiter) (ip now : ℕ) (reason : BlockReason)
    → has ip l.exceptions ≡ false
    → lookup ip l.blocked ≡ none
    → (check_ticked l ip now).1 ≡ ip_blocked false reason
    → ⊥
unfolding check_ticked check_blocked check_count block_address_for_with_reason set_block
fresh_decision l ip now reason x b e = elim (Bool-cases (leb l.global_limit l.window_count)) [
  | inl t ↦ let q : global_limit_reached ≡ ip_blocked false reason = rw (x, b, t) at e in cc
  | inr f ↦ elim (Bool-cases (leb l.per_ip_limit (count_of l ip))) [
    | inl t ↦
        let n : has ip l.blocked ≡ false = rw (has, b) refl in
        let q : ip_blocked true rate_exceeded ≡ ip_blocked false reason =
          rw (x, b, f, t, x, n) at e in
        cc
    | inr g ↦ let q : allow ≡ ip_blocked false reason = rw (x, b, f, g) at e in cc
  ]
]

blocked_decision :
    (l : RateLimiter) (ip now : ℕ) (s : BlockState)
    → has ip l.exceptions ≡ false
    → lookup ip l.blocked ≡ some s
    → (check_ticked l ip now).1 ≡ ip_blocked false s.reason
unfolding check_ticked check_blocked
blocked_decision l ip now s x b = rw (x, b) refl

-- A block without an end, or one that ends later.
holds_iff :
    (now : ℕ) (s : BlockState)
    → (is_expired now s ≡ false)
      ↔ ((s.blocked_until ≡ none) ⊎ ((until : ℕ) × (s.blocked_until ≡ some until) × (now < until)))
unfolding is_expired
holds_iff now s = elim (Option-cases s.blocked_until) [
  | inl e ↦ (λ f. inl e, λ h. rw (is_expired, e) refl)
  | inr (until, e) ↦ (
    λ f.
        let later : leb until now ≡ false = (rw (is_expired, e) at f) in
        inr (until, e, ground arith),
    λ h. elim h [
      | inl n ↦ absurd (cc)
      | inr (until', e', l) ↦ let same : until ≡ until' = cc in rw (is_expired, e) (ground arith)
    ],
  )
]

-- An address without an exception that is blocked is refused for the reason of its block exactly if the
-- block has no end or ends after this instant.
pub check-is_expired :
    (l : RateLimiter) (ip now : ℕ) (s : BlockState)
    → IsLimiter l
    → has ip l.exceptions ≡ false
    → lookup ip l.blocked ≡ some s
    → ((check l ip now).1 ≡ ip_blocked false s.reason)
      ↔ ((s.blocked_until ≡ none) ⊎ ((until : ℕ) × (s.blocked_until ≡ some until) × (now < until)))
unfolding check
check-is_expired l ip now s v x b =
    let x' : has ip (tick l now).exceptions ≡ false =
      ap (λ m. has ip m) (tick-exceptions l now) ∙ x in
    let b' = tick-blocked l now ip s v.blocks b in
    let (holds, held) = holds_iff now s in
    elim (Bool-cases (is_expired now s)) [
      | inl t ↦
          let gone : lookup ip (tick l now).blocked ≡ none = b' ∙ rw t refl in
          (
            λ e. absurd (fresh_decision (tick l now) ip now s.reason x' gone e),
            λ h. let f = held h in absurd (cc),
          )
      | inr f ↦
          let kept : lookup ip (tick l now).blocked ≡ some s = b' ∙ rw f refl in
          (λ e. holds f, λ e. blocked_decision (tick l now) ip now s x' kept)
    ]

new_window :
    (l : RateLimiter) (now : ℕ)
    → l.window ≤ now - l.window_start
    → ((tick l now).window_count ≡ 0)
      × ((tick l now).ip_state ≡ [])
      × ((tick l now).per_ip_limit ≡ l.per_ip_limit)
      × ((tick l now).global_limit ≡ l.global_limit)
unfolding tick prune_expired_blocks count_unblocked rotate_window_if_needed reset_window_state
new_window l now h =
    let over : ltb (now - l.window_start) l.window ≡ false = ground arith in
    (rw over refl, rw over refl, rw over refl, rw over refl)

open_decision :
    (l : RateLimiter) (ip now : ℕ)
    → has ip l.exceptions ≡ false
    → lookup ip l.blocked ≡ none
    → leb l.global_limit l.window_count ≡ false
    → leb l.per_ip_limit (count_of l ip) ≡ false
    → (check_ticked l ip now).1 ≡ allow
unfolding check_ticked check_blocked check_count
open_decision l ip now x b g c = rw (x, b, g, c) refl

expired :
    (now : ℕ) (s : BlockState) (until : ℕ)
    → s.blocked_until ≡ some until
    → until ≤ now
    → is_expired now s ≡ true
unfolding is_expired
expired now s until u h = rw u (ground arith)

no_count : (l : RateLimiter) (ip : ℕ) → l.ip_state ≡ [] → count_of l ip ≡ 0
unfolding count_of lookup
no_count l ip e = rw e refl

-- A block that has an end does not last: the address is let in again with the first packet that comes
-- after the end of the block and of the window.
pub check-allow :
    (l : RateLimiter) (ip now : ℕ) (s : BlockState) (until : ℕ)
    → IsLimiter l
    → has ip l.exceptions ≡ false
    → lookup ip l.blocked ≡ some s
    → s.blocked_until ≡ some until
    → until ≤ now
    → l.window ≤ now - l.window_start
    → (check l ip now).1 ≡ allow
unfolding check
check-allow l ip now s until v x b u h w =
    let (zero_count, empty, per_ip, global) = new_window l now w in
    let some_global = v.global in
    let some_per_ip = v.per_ip in
    let ended : is_expired now s ≡ true = expired now s until u h in
    let none_yet : count_of (tick l now) ip ≡ 0 = no_count (tick l now) ip empty in
    open_decision (tick l now) ip now (ap (λ m. has ip m) (tick-exceptions l now) ∙ x)
      (tick-blocked l now ip s v.blocks b ∙ rw ended refl) (ground (arith, global, zero_count))
      (ground (arith, per_ip, none_yet))
