-- ===== src/Transport/RateLimiter/Bounds.antt =====
-- What every operation keeps of the limiter.
use raknet_rust.Common.{
  ℕ, suc, ◌+◌, ◌-◌, ◌≤◌, ◌<◌, ◌≡◌, refl, subst, sym, ap, inl, inr, false, ltb, leb, List, [], ◌∷◌,
  length, Option, none, some, All, leb→le, Bool-cases, Option-cases, arith,
}
use raknet_rust.Common.Map.{
  lookup, insert, Above, Above-mono, lookup-below, insert-Above, insert-All, All-lookup,
}
use raknet_rust.Transport.RateLimiter.{
  BlockReason, rate_exceeded, BlockState, RateLimiter, has, record_ip_block_hit, record_new_block,
  reset_window_state, rotate_window_if_needed, is_expired, retain_blocks, count_unblocked,
  prune_expired_blocks, tick, set_block, block_address_for_with_reason, count_of, check_count,
  count_global, check_blocked, check_ticked, check,
}

abbrev pub sum_counts : List (ℕ × ℕ) → ℕ
sum_counts [] = 0
sum_counts ((ip, n) ∷ m) = n + sum_counts m

abbrev pub count_in : ℕ → List (ℕ × ℕ) → ℕ
count_in ip m = elim (lookup ip m) [ some n ↦ n | none ↦ 0 ]

abbrev IsCounted : ℕ → ℕ × ℕ → Type 0
IsCounted limit e = (1 ≤ e.1) × (e.1 ≤ limit)

abbrev pub Unexempt : List (ℕ × Unit {0}) → ℕ × BlockState → Type 0
Unexempt exceptions e = has e.0 exceptions ≡ false

-- The counts of the window are within their limits, and no address is both exempt and blocked.
pub record IsLimiter (l : RateLimiter) : Type 0 where
  pub per_ip : 1 ≤ l.per_ip_limit
  pub global : 1 ≤ l.global_limit
  pub sorted : Above 0 l.ip_state
  pub counts : All (IsCounted l.per_ip_limit) l.ip_state
  pub total : sum_counts l.ip_state ≤ l.window_count
  pub bounded : sum_counts l.ip_state ≤ l.global_limit
  pub blocks : Above 0 l.blocked
  pub exempt : All (Unexempt l.exceptions) l.blocked

-- The addresses that are tracked are no more than the limit of the window.
length-counts : (limit : ℕ) (m : List (ℕ × ℕ)) → All (IsCounted limit) m → length m ≤ sum_counts m
length-counts limit [] h = omega arith
length-counts limit ((ip, n) ∷ m) h = omega (arith, length-counts limit m h.1)

pub length-ip_state : (l : RateLimiter) → IsLimiter l → length l.ip_state ≤ l.global_limit
length-ip_state l v =
    let b = v.bounded in omega (arith, length-counts l.per_ip_limit l.ip_state v.counts)

pub sum_counts-insert :
    (n ip v : ℕ) (m : List (ℕ × ℕ))
    → Above n m
    → sum_counts (insert ip v m) + count_in ip m ≡ sum_counts m + v
unfolding lookup insert
sum_counts-insert n ip v [] s = omega arith
sum_counts-insert n ip v ((j, w) ∷ m) s =
    ground (arith, sum_counts-insert (suc j) ip v m s.1, lookup-below (suc j) ip m s.1)

pub count_in-le :
    (limit ip : ℕ) (m : List (ℕ × ℕ)) → All (IsCounted limit) m → count_in ip m ≤ limit
count_in-le limit ip m h = elim (Option-cases (lookup ip m)) [
  | inl e ↦ rw (count_in, e) (omega arith)
  | inr (n, e) ↦ rw (count_in, e) (All-lookup (IsCounted limit) ip m n h e).1
]

retain_blocks-All {κ} :
    (P : ℕ × BlockState → Type κ) (now : ℕ) (m : List (ℕ × BlockState))
    → All P m
    → All P (retain_blocks now m).0
unfolding retain_blocks
retain_blocks-All P now [] h = tt
retain_blocks-All P now ((ip, s) ∷ m) h = elim (Bool-cases (is_expired now s)) [
  | inl t ↦ rw t (retain_blocks-All P now m h.1)
  | inr f ↦ rw f (h.0, retain_blocks-All P now m h.1)
]

pub retain_blocks-Above :
    (n now : ℕ) (m : List (ℕ × BlockState)) → Above n m → Above n (retain_blocks now m).0
unfolding retain_blocks
retain_blocks-Above n now [] s = tt
retain_blocks-Above n now ((ip, b) ∷ m) s =
    let r = retain_blocks-Above (suc ip) now m s.1 in
    ground (arith, r, Above-mono n (suc ip) (retain_blocks now m).0)

pub reset-IsLimiter :
    (l : RateLimiter) (now : ℕ) → IsLimiter l → IsLimiter (reset_window_state l now)
unfolding reset_window_state
reset-IsLimiter l now v = record {
  per_ip = v.per_ip;
  global = v.global;
  sorted = tt;
  counts = tt;
  total = omega arith;
  bounded = omega arith;
  blocks = v.blocks;
  exempt = v.exempt;
}

rotate-IsLimiter :
    (l : RateLimiter) (now : ℕ) → IsLimiter l → IsLimiter (rotate_window_if_needed l now)
unfolding rotate_window_if_needed
rotate-IsLimiter l now v = elim (Bool-cases (ltb (now - l.window_start) l.window)) [
  | inl t ↦ rw t v
  | inr f ↦ rw f (reset-IsLimiter l now v)
]

-- New blocks and counters, and the rest as it was.
pub with_blocked :
    (l l' : RateLimiter)
    → IsLimiter l
    → l'.per_ip_limit ≡ l.per_ip_limit
    → l'.global_limit ≡ l.global_limit
    → l'.ip_state ≡ l.ip_state
    → l'.window_count ≡ l.window_count
    → Above 0 l'.blocked
    → All (Unexempt l'.exceptions) l'.blocked
    → IsLimiter l'
with_blocked l l' v p g i w s e =
    let per_ip = v.per_ip in
    let global = v.global in
    let total = v.total in
    let bounded = v.bounded in
    let sums : sum_counts l'.ip_state ≡ sum_counts l.ip_state = ap sum_counts i in
    record {
      per_ip = omega (arith, p);
      global = omega (arith, g);
      sorted = subst (Above 0) (sym i) v.sorted;
      counts =
          subst (λ m. All (IsCounted l'.per_ip_limit) m) (sym i)
            (subst (λ n. All (IsCounted n) l.ip_state) (sym p) v.counts);
      total = omega (arith, sums, w);
      bounded = omega (arith, sums, g);
      blocks = s;
      exempt = e;
    }

prune-IsLimiter : (l : RateLimiter) (now : ℕ) → IsLimiter l → IsLimiter (prune_expired_blocks l now)
unfolding prune_expired_blocks count_unblocked
prune-IsLimiter l now v =
    with_blocked l _ v refl refl refl refl (retain_blocks-Above 0 now l.blocked v.blocks)
      (retain_blocks-All (Unexempt l.exceptions) now l.blocked v.exempt)

pub tick-IsLimiter : (l : RateLimiter) (now : ℕ) → IsLimiter l → IsLimiter (tick l now)
unfolding tick
tick-IsLimiter l now v = prune-IsLimiter _ now (rotate-IsLimiter l now v)

pub set_block-IsLimiter :
    (l : RateLimiter) (ip : ℕ) (until : Option ℕ) (reason : BlockReason)
    → IsLimiter l
    → IsLimiter (set_block l ip until reason).0
unfolding set_block record_new_block
set_block-IsLimiter l ip until reason v = elim (Bool-cases (has ip l.exceptions)) [
  | inl t ↦ rw t v
  | inr f ↦
      let state : BlockState = record { blocked_until = until; reason = reason } in
      let sorted = insert-Above 0 ip state l.blocked (omega arith) v.blocks in
      let kept = insert-All (Unexempt l.exceptions) ip state l.blocked f v.exempt in
      elim (Bool-cases (has ip l.blocked)) [
        | inl t ↦ rw (f, t) (with_blocked l _ v refl refl refl refl sorted kept)
        | inr g ↦ rw (f, g) (with_blocked l _ v refl refl refl refl sorted kept)
      ]
]

-- The count of one address is set, and the window counted on by `k`.
set_count :
    (l : RateLimiter) (ip count k : ℕ)
    → IsLimiter l
    → 1 ≤ count
    → count ≤ l.per_ip_limit
    → count ≤ count_of l ip + k
    → sum_counts l.ip_state + k ≤ l.global_limit
    → IsLimiter
        (record l { ip_state = insert ip count l.ip_state; window_count = l.window_count + k })
unfolding count_of
set_count l ip count k v low high step fits =
    let sum = sum_counts-insert 0 ip count l.ip_state v.sorted in
    let total = v.total in
    record {
      per_ip = v.per_ip;
      global = v.global;
      sorted = insert-Above 0 ip count l.ip_state (omega arith) v.sorted;
      counts = insert-All (IsCounted l.per_ip_limit) ip count l.ip_state (low, high) v.counts;
      total = omega (arith, sum);
      bounded = omega (arith, sum);
      blocks = v.blocks;
      exempt = v.exempt;
    }

hit-IsLimiter :
    (l : RateLimiter) (reason : BlockReason)
    → IsLimiter l
    → IsLimiter (record_ip_block_hit l reason)
unfolding record_ip_block_hit
hit-IsLimiter l reason v = with_blocked l _ v refl refl refl refl v.blocks v.exempt

same_window :
    (l : RateLimiter) → IsLimiter (record l { window_count = l.window_count + 0 }) → IsLimiter l
same_window l v = subst (λ n. IsLimiter (record l { window_count = n })) (omega arith) v

check_count-IsLimiter :
    (l : RateLimiter) (ip now : ℕ)
    → IsLimiter l
    → l.window_count < l.global_limit
    → IsLimiter (check_count l ip now).0
unfolding check_count block_address_for_with_reason
check_count-IsLimiter l ip now v room =
    let total = v.total in
    let per_ip = v.per_ip in
    let bounded = v.bounded in
    let high : count_of l ip ≤ l.per_ip_limit =
      unfold count_of in count_in-le l.per_ip_limit ip l.ip_state v.counts in
    elim (Bool-cases (leb l.per_ip_limit (count_of l ip))) [
      | inl t ↦
          let reached : l.per_ip_limit ≤ count_of l ip = leb→le _ _ t in
          let entered =
            same_window _
              (set_count l ip (count_of l ip) 0 v (omega arith) high (omega arith) (omega arith)) in
          rw t (hit-IsLimiter _ rate_exceeded (set_block-IsLimiter _ ip _ rate_exceeded entered))
      | inr f ↦
          let below : count_of l ip < l.per_ip_limit = ground arith in
          rw f (
            set_count l ip (count_of l ip + 1) 1 v (omega arith) (omega arith) (omega arith)
              (omega arith))
    ]

check_blocked-IsLimiter :
    (l : RateLimiter) (ip now : ℕ) (b : Option BlockState)
    → IsLimiter l
    → IsLimiter (check_blocked l ip now b).0
unfolding check_blocked count_global
check_blocked-IsLimiter l ip now (some s) v = hit-IsLimiter l s.reason v
check_blocked-IsLimiter l ip now none v = elim (Bool-cases (leb l.global_limit l.window_count)) [
  | inl t ↦ rw t (with_blocked l _ v refl refl refl refl v.blocks v.exempt)
  | inr f ↦ rw f (check_count-IsLimiter l ip now v (ground arith))
]

check_ticked-IsLimiter :
    (l : RateLimiter) (ip now : ℕ) → IsLimiter l → IsLimiter (check_ticked l ip now).0
unfolding check_ticked
check_ticked-IsLimiter l ip now v = elim (Bool-cases (has ip l.exceptions)) [
  | inr f ↦ rw f (check_blocked-IsLimiter l ip now (lookup ip l.blocked) v)
  | inl t ↦
      let total = v.total in
      rw t record {
        per_ip = v.per_ip;
        global = v.global;
        sorted = v.sorted;
        counts = v.counts;
        total = omega arith;
        bounded = v.bounded;
        blocks = v.blocks;
        exempt = v.exempt;
      }
]

-- Whatever packet comes, and whenever, the limiter keeps its bounds: each address is let in at most
-- `per_ip_limit` times in a window, the addresses without an exception together at most `global_limit`
-- times, and no address is both exempt and blocked.
pub check-IsLimiter : (l : RateLimiter) (ip now : ℕ) → IsLimiter l → IsLimiter (check l ip now).0
unfolding check
check-IsLimiter l ip now v = check_ticked-IsLimiter (tick l now) ip now (tick-IsLimiter l now v)
