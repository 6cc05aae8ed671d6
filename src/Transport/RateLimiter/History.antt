-- ===== src/Transport/RateLimiter/History.antt =====
-- Whole histories of packets in one window.
use raknet_rust.Common.{
  ℕ, ◌+◌, ◌-◌, ◌≤◌, ◌<◌, ◌≡◌, refl, ap, ◌∙◌, inl, inr, Bool, true, false, ◌&&◌, ◌==◌, ltb, leb,
  if◌then◌else◌, List, [], ◌∷◌, Option, none, some, All, Bool-cases, arith,
}
use raknet_rust.Common.Map.{lookup, insert, lookup-insert}
use raknet_rust.Transport.RateLimiter.{
  BlockReason, rate_exceeded, RateLimitDecision, allow, global_limit_reached, ip_blocked,
  BlockState, RateLimiter, has, record_ip_block_hit, record_new_block, rotate_window_if_needed,
  count_unblocked, prune_expired_blocks, tick, set_block, block_address_for_with_reason, count_of,
  check_count, count_global, check_blocked, check_ticked, check,
}
use raknet_rust.Transport.RateLimiter.Bounds.{IsLimiter, count_in, count_in-le, check-IsLimiter}

abbrev pub is_allow : RateLimitDecision → Bool
is_allow allow = true
is_allow global_limit_reached = false
is_allow (ip_blocked newly_blocked reason) = false

abbrev pub one_if : Bool → ℕ
one_if b = if b then 1 else 0

-- How many packets of an address are let in, in a history of packets with their addresses and times.
unfoldable pub admitted : RateLimiter → ℕ → List (ℕ × ℕ) → ℕ
admitted l ip [] = 0
admitted l ip ((from, now) ∷ packets) =
    let (l', decision) = check l from now in
    one_if (from == ip && is_allow decision) + admitted l' ip packets

-- All packets come within the window.
abbrev pub InWindow : RateLimiter → ℕ × ℕ → Type 0
InWindow l packet = packet.1 - l.window_start < l.window

-- What a packet leaves as it is, and its count.
record Counted (l l' : RateLimiter) (ip : ℕ) (let_in : ℕ) : Type 0 where
  start : l'.window_start ≡ l.window_start
  window : l'.window ≡ l.window
  limit : l'.per_ip_limit ≡ l.per_ip_limit
  exceptions : l'.exceptions ≡ l.exceptions
  count : count_of l' ip ≡ count_of l ip + let_in

counted :
    (l l' : RateLimiter) (ip n : ℕ)
    → l'.window_start ≡ l.window_start
    → l'.window ≡ l.window
    → l'.per_ip_limit ≡ l.per_ip_limit
    → l'.exceptions ≡ l.exceptions
    → count_of l' ip ≡ count_of l ip + n
    → Counted l l' ip n
counted l l' ip n a b c d e = record { start = a; window = b; limit = c; exceptions = d; count = e }

Counted-trans :
    (l l' l'' : RateLimiter) (ip n m k : ℕ)
    → n + m ≡ k
    → Counted l l' ip n
    → Counted l' l'' ip m
    → Counted l l'' ip k
Counted-trans l l' l'' ip n m k e a b =
    counted l l'' ip k (b.start ∙ a.start) (b.window ∙ a.window) (b.limit ∙ a.limit)
      (b.exceptions ∙ a.exceptions) (omega (arith, e, a.count, b.count))

blocked_lem :
    (l : RateLimiter) (from ip : ℕ) (until : Option ℕ) (reason : BlockReason)
    → Counted l (set_block l from until reason).0 ip 0
unfolding set_block record_new_block count_of
blocked_lem l from ip until reason = elim (Bool-cases (has from l.exceptions)) [
  | inl t ↦ rw t (counted l _ ip 0 refl refl refl refl (omega arith))
  | inr f ↦ elim (Bool-cases (has from l.blocked)) [
    | inl t ↦ rw (f, t) (counted l _ ip 0 refl refl refl refl (omega arith))
    | inr g ↦ rw (f, g) (counted l _ ip 0 refl refl refl refl (omega arith))
  ]
]

hit_lem :
    (l : RateLimiter) (ip : ℕ) (reason : BlockReason)
    → Counted l (record_ip_block_hit l reason) ip 0
unfolding record_ip_block_hit count_of
hit_lem l ip reason = counted l _ ip 0 refl refl refl refl (omega arith)

count_in-insert :
    (from ip n : ℕ) (m : List (ℕ × ℕ))
    → count_in ip (insert from n m) ≡ (if from == ip then n else count_in ip m)
count_in-insert from ip n m = elim (Bool-cases (from == ip)) [
  | inl t ↦ rw (count_in, lookup-insert from ip n m, t) refl
  | inr f ↦ rw (count_in, lookup-insert from ip n m, f) refl
]

pub same_entry :
    (from ip : ℕ) (m : List (ℕ × ℕ))
    → count_in ip (insert from (count_in from m) m) ≡ count_in ip m + 0
same_entry from ip m = elim (Bool-cases (from == ip)) [
  | inl t ↦
      let same : from ≡ ip = ground arith in
      count_in-insert from ip _ m ∙ rw t (ap (λ i. count_in i m) same ∙ omega arith)
  | inr f ↦ count_in-insert from ip _ m ∙ rw f (omega arith)
]

pub next_entry :
    (from ip : ℕ) (m : List (ℕ × ℕ))
    → count_in ip (insert from (count_in from m + 1) m)
      ≡ count_in ip m + one_if (from == ip && true)
next_entry from ip m = elim (Bool-cases (from == ip)) [
  | inl t ↦
      let same : from ≡ ip = ground arith in
      count_in-insert from ip _ m ∙ rw t (ap (λ i. count_in i m + 1) same)
  | inr f ↦ count_in-insert from ip _ m ∙ rw f (omega arith)
]

pub no_more : (b : Bool) → one_if (b && false) ≡ 0
no_more true = refl
no_more false = refl

check_count_lem :
    (l : RateLimiter) (from ip now : ℕ)
    → let r = check_count l from now in Counted l r.0 ip (one_if (from == ip && is_allow r.1))
unfolding check_count block_address_for_with_reason count_of
check_count_lem l from ip now =
    let count = count_of l from in
    elim (Bool-cases (leb l.per_ip_limit count)) [
      | inl t ↦
          let entered = record l { ip_state = insert from count l.ip_state } in
          let same = counted l entered ip 0 refl refl refl refl (same_entry from ip l.ip_state) in
          rw (t, no_more (from == ip))
            (Counted-trans l _ _ ip 0 0 0 refl
              (Counted-trans l entered _ ip 0 0 0 refl same
                (blocked_lem entered from ip _ rate_exceeded))
              (hit_lem _ ip rate_exceeded))
      | inr f ↦ rw f (counted l _ ip _ refl refl refl refl (next_entry from ip l.ip_state))
    ]

check_blocked_lem :
    (l : RateLimiter) (from ip now : ℕ) (b : Option BlockState)
    → let r = check_blocked l from now b in Counted l r.0 ip (one_if (from == ip && is_allow r.1))
unfolding check_blocked count_global count_of
check_blocked_lem l from ip now (some s) = rw (no_more (from == ip)) (hit_lem l ip s.reason)
check_blocked_lem l from ip now none = elim (Bool-cases (leb l.global_limit l.window_count)) [
  | inl t ↦ rw (t, no_more (from == ip)) (counted l _ ip 0 refl refl refl refl (omega arith))
  | inr f ↦ rw f (check_count_lem l from ip now)
]

-- An exempt address is let in without a count; the one that is counted has no exception.
check_ticked_lem :
    (l : RateLimiter) (from ip now : ℕ)
    → has ip l.exceptions ≡ false
    → let r = check_ticked l from now in Counted l r.0 ip (one_if (from == ip && is_allow r.1))
unfolding check_ticked count_of
check_ticked_lem l from ip now x = elim (Bool-cases (has from l.exceptions)) [
  | inr f ↦ rw f (check_blocked_lem l from ip now (lookup from l.blocked))
  | inl t ↦
      let other : (from == ip) ≡ false = elim (Bool-cases (from == ip)) [
        | inr d ↦ d
        | inl e ↦
            let same : from ≡ ip = ground arith in
            let both : has from l.exceptions ≡ false = ap (λ i. has i l.exceptions) same ∙ x in cc
      ] in
      rw (t, other) (counted l _ ip 0 refl refl refl refl (omega arith))
]

tick_lem :
    (l : RateLimiter) (ip now : ℕ) → now - l.window_start < l.window → Counted l (tick l now) ip 0
unfolding tick rotate_window_if_needed prune_expired_blocks count_unblocked count_of
tick_lem l ip now h =
    let within : ltb (now - l.window_start) l.window ≡ true = ground arith in
    rw within (counted l _ ip 0 refl refl refl refl (omega arith))

check_lem :
    (l : RateLimiter) (from ip now : ℕ)
    → has ip l.exceptions ≡ false
    → now - l.window_start < l.window
    → let r = check l from now in Counted l r.0 ip (one_if (from == ip && is_allow r.1))
unfolding check
check_lem l from ip now x h =
    let t = tick_lem l ip now h in
    Counted-trans l (tick l now) _ ip 0 _ _ (omega arith) t
      (check_ticked_lem (tick l now) from ip now (ap (λ m. has ip m) t.exceptions ∙ x))

in_window :
    (l l' : RateLimiter) (packets : List (ℕ × ℕ))
    → l'.window_start ≡ l.window_start
    → l'.window ≡ l.window
    → All (InWindow l) packets
    → All (InWindow l') packets
in_window l l' [] s w h = tt
in_window l l' (p ∷ packets) s w h = (omega (arith, s, w, h.0), in_window l l' packets s w h.1)

-- In one window an address without an exception is let in at most `per_ip_limit` times, over any
-- history of packets of any addresses that come within the window, those before the history included.
pub admitted-le :
    (l : RateLimiter) (ip : ℕ) (packets : List (ℕ × ℕ))
    → IsLimiter l
    → has ip l.exceptions ≡ false
    → All (InWindow l) packets
    → count_of l ip + admitted l ip packets ≤ l.per_ip_limit
unfolding admitted
admitted-le l ip [] v x h =
    let low : count_of l ip ≤ l.per_ip_limit =
      unfold count_of in count_in-le l.per_ip_limit ip l.ip_state v.counts in
    omega (arith, low)
admitted-le l ip ((from, now) ∷ packets) v x h =
    let step = check_lem l from ip now x h.0 in
    let l' = (check l from now).0 in
    let later =
      admitted-le l' ip packets (check-IsLimiter l from now v)
        (ap (λ m. has ip m) step.exceptions ∙ x)
        (in_window l l' packets step.start step.window h.1) in
    let count = step.count in let limit = step.limit in omega (arith, later, count, limit)
