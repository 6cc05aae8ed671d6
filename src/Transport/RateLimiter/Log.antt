-- ===== src/Transport/RateLimiter/Log.antt =====
-- The decisions of the limiter over any sequence of its calls.
use raknet_rust.Common.{
  ℕ, ◌+◌, ◌-◌, ◌≤◌, ◌≡◌, refl, subst, ap, ◌∙◌, inl, inr, true, false, not, ◌&&◌, ◌==◌, ltb, leb,
  if◌then◌else◌, List, [], ◌∷◌, length, Option, none, some, All, Bool-cases, arith,
}
use raknet_rust.Common.Map.{lookup, insert}
use raknet_rust.Transport.RateLimiter.{
  BlockReason, rate_exceeded, BlockState, RateLimiter, has, new, reset_window_state,
  rotate_window_if_needed, count_unblocked, prune_expired_blocks, tick, set_block, record_new_block,
  record_ip_block_hit, block_address_with_reason, block_address_for_with_reason, unblock_address,
  add_exception, remove_exception, count_of, count_global, check_count, check_blocked, check_ticked,
  check, set_per_ip_limit, set_global_limit, set_window, set_block_duration, update_limits,
}
use raknet_rust.Transport.RateLimiter.Bounds.{
  IsLimiter, Unexempt, sum_counts, sum_counts-insert, count_in, count_in-le, length-ip_state,
  tick-IsLimiter,
}
use raknet_rust.Transport.RateLimiter.History.{is_allow, one_if, same_entry, next_entry}
use raknet_rust.Transport.RateLimiter.Operations.{
  Operation, packet, timer, block, block_for, unblock, except, unexcept, limit_ip, limit_global,
  limit_window, limit_block, limit_all, step, step-IsLimiter, new-IsLimiter,
}

-- A log stays as long as the window lasts.
abbrev in_window : RateLimiter → ℕ → List ℕ → List ℕ
in_window l now log = if ltb (now - l.window_start) l.window then log else []

-- The addresses let in since the window began, but for those with an exception. New limits and the end
-- of the window begin a new one.
abbrev let_in : RateLimiter → Operation → List ℕ → List ℕ
let_in l (packet ip now) log =
    let old = in_window l now log in
    if not (has ip l.exceptions) && is_allow (check l ip now).1 then ip ∷ old else old
let_in l (timer now) log = in_window l now log
let_in l (block ip reason) log = log
let_in l (block_for ip now duration reason) log = log
let_in l (unblock ip) log = log
let_in l (except ip) log = log
let_in l (unexcept ip) log = log
let_in l (limit_ip n now) log = []
let_in l (limit_global n now) log = []
let_in l (limit_window n now) log = []
let_in l (limit_block n) log = log
let_in l (limit_all per_ip global window hold now) log = []

-- The limiter after a sequence of calls, with the log.
unfoldable pub run_logged : RateLimiter → List ℕ → List Operation → RateLimiter × List ℕ
run_logged l log [] = (l, log)
run_logged l log (o ∷ os) = run_logged (step l o) (let_in l o log) os

-- How often an address stands in the log.
abbrev pub visits : ℕ → List ℕ → ℕ
visits ip [] = 0
visits ip (j ∷ log) = one_if (j == ip) + visits ip log

-- The counters are those of the log.
record IsLogged (l : RateLimiter) (log : List ℕ) : Type 0 where
  sum : sum_counts l.ip_state ≡ length log
  each : (ip : ℕ) → count_in ip l.ip_state ≡ visits ip log

IsLogged-same :
    (l l' : RateLimiter) (log : List ℕ)
    → l'.ip_state ≡ l.ip_state
    → IsLogged l log
    → IsLogged l' log
IsLogged-same l l' log e g = record {
  sum = ap sum_counts e ∙ g.sum;
  each = λ ip. ap (count_in ip) e ∙ g.each ip;
}

IsLogged-new : (l : RateLimiter) → l.ip_state ≡ [] → IsLogged l []
IsLogged-new l e = record {
  sum = ap sum_counts e;
  each = λ ip. ap (count_in ip) e ∙ (unfold lookup in refl);
}

tick-IsLogged :
    (l : RateLimiter) (now : ℕ) (log : List ℕ)
    → IsLogged l log
    → IsLogged (tick l now) (in_window l now log)
unfolding tick rotate_window_if_needed reset_window_state prune_expired_blocks count_unblocked
tick-IsLogged l now log g = elim (Bool-cases (ltb (now - l.window_start) l.window)) [
  | inl t ↦ rw t (IsLogged-same l _ log refl g)
  | inr f ↦ rw f (IsLogged-new _ refl)
]

tick-exceptions : (l : RateLimiter) (now : ℕ) → (tick l now).exceptions ≡ l.exceptions
unfolding tick rotate_window_if_needed reset_window_state prune_expired_blocks count_unblocked
tick-exceptions l now = elim (Bool-cases (ltb (now - l.window_start) l.window)) [
  | inl t ↦ rw t refl
  | inr f ↦ rw f refl
]

set_block-ip_state :
    (l : RateLimiter) (ip : ℕ) (until : Option ℕ) (reason : BlockReason)
    → (set_block l ip until reason).0.ip_state ≡ l.ip_state
unfolding set_block record_new_block
set_block-ip_state l ip until reason = elim (Bool-cases (has ip l.exceptions)) [
  | inl t ↦ rw t refl
  | inr f ↦ elim (Bool-cases (has ip l.blocked)) [ inl t ↦ rw (f, t) refl | inr n ↦ rw (f, n) refl ]
]

unblock-ip_state : (l : RateLimiter) (ip : ℕ) → (unblock_address l ip).0.ip_state ≡ l.ip_state
unfolding unblock_address count_unblocked
unblock-ip_state l ip = elim (Bool-cases (has ip l.blocked)) [
  | inl t ↦ rw t refl
  | inr f ↦ rw f refl
]

-- The entry of an address with its count, or with one more.
entered :
    (l l' : RateLimiter) (ip : ℕ) (log : List ℕ)
    → IsLimiter l
    → l'.ip_state ≡ insert ip (count_in ip l.ip_state) l.ip_state
    → IsLogged l log
    → IsLogged l' log
entered l l' ip log v e g =
    let sum = sum_counts-insert 0 ip (count_in ip l.ip_state) l.ip_state v.sorted in
    record {
      sum = ap sum_counts e ∙ (omega (arith, sum, g.sum));
      each = λ j. ap (count_in j) e ∙ same_entry ip j l.ip_state ∙ omega (arith, g.each j);
    }

one_more :
    (l l' : RateLimiter) (ip : ℕ) (log : List ℕ)
    → IsLimiter l
    → l'.ip_state ≡ insert ip (count_in ip l.ip_state + 1) l.ip_state
    → IsLogged l log
    → IsLogged l' (ip ∷ log)
one_more l l' ip log v e g =
    let sum = sum_counts-insert 0 ip (count_in ip l.ip_state + 1) l.ip_state v.sorted in
    record {
      sum = ap sum_counts e ∙ (omega (arith, sum, g.sum));
      each = λ j. ap (count_in j) e ∙ next_entry ip j l.ip_state ∙ ground (arith, g.each j);
    }

check_count-IsLogged :
    (l : RateLimiter) (ip now : ℕ) (log : List ℕ)
    → IsLimiter l
    → IsLogged l log
    → let r = check_count l ip now in IsLogged r.0 (if is_allow r.1 then ip ∷ log else log)
unfolding check_count block_address_for_with_reason count_of record_ip_block_hit
check_count-IsLogged l ip now log v g =
    let count = count_in ip l.ip_state in
    elim (Bool-cases (leb l.per_ip_limit count)) [
      | inl t ↦
          let held = record l { ip_state = insert ip count l.ip_state } in
          rw t (entered l _ ip log v (set_block-ip_state held ip _ rate_exceeded) g)
      | inr f ↦ rw f (one_more l _ ip log v refl g)
    ]

check_blocked-IsLogged :
    (l : RateLimiter) (ip now : ℕ) (b : Option BlockState) (log : List ℕ)
    → IsLimiter l
    → IsLogged l log
    → let r = check_blocked l ip now b in IsLogged r.0 (if is_allow r.1 then ip ∷ log else log)
unfolding check_blocked count_global record_ip_block_hit
check_blocked-IsLogged l ip now (some s) log v g = IsLogged-same l _ log refl g
check_blocked-IsLogged l ip now none log v g =
    elim (Bool-cases (leb l.global_limit l.window_count)) [
      | inl t ↦ rw t (IsLogged-same l _ log refl g)
      | inr f ↦ rw f (check_count-IsLogged l ip now log v g)
    ]

check_ticked-IsLogged :
    (l : RateLimiter) (ip now : ℕ) (log : List ℕ)
    → IsLimiter l
    → IsLogged l log
    → let r = check_ticked l ip now in
      IsLogged r.0 (if not (has ip l.exceptions) && is_allow r.1 then ip ∷ log else log)
unfolding check_ticked
check_ticked-IsLogged l ip now log v g = elim (Bool-cases (has ip l.exceptions)) [
  | inl t ↦ rw t (IsLogged-same l _ log refl g)
  | inr f ↦ rw f (check_blocked-IsLogged l ip now _ log v g)
]

check-IsLogged :
    (l : RateLimiter) (ip now : ℕ) (log : List ℕ)
    → IsLimiter l
    → IsLogged l log
    → IsLogged (check l ip now).0 (let_in l (packet ip now) log)
unfolding check
check-IsLogged l ip now log v g =
    let old = in_window l now log in
    let t = tick l now in
    let r = check_ticked t ip now in
    subst (λ m. IsLogged r.0 (if not (has ip m) && is_allow r.1 then ip ∷ old else old))
      (tick-exceptions l now)
      (check_ticked-IsLogged t ip now old (tick-IsLimiter l now v) (tick-IsLogged l now log g))

step-IsLogged :
    (l : RateLimiter) (o : Operation) (log : List ℕ)
    → IsLimiter l
    → IsLogged l log
    → IsLogged (step l o) (let_in l o log)
unfolding step block_address_with_reason block_address_for_with_reason add_exception
    remove_exception set_per_ip_limit set_global_limit set_window set_block_duration update_limits
    reset_window_state
step-IsLogged l (packet ip now) log v g = check-IsLogged l ip now log v g
step-IsLogged l (timer now) log v g = tick-IsLogged l now log g
step-IsLogged l (block ip reason) log v g =
    IsLogged-same l _ log (set_block-ip_state l ip none reason) g
step-IsLogged l (block_for ip now duration reason) log v g =
    IsLogged-same l _ log (set_block-ip_state l ip _ reason) g
step-IsLogged l (unblock ip) log v g = IsLogged-same l _ log (unblock-ip_state l ip) g
step-IsLogged l (except ip) log v g =
    IsLogged-same l _ log
      (unblock-ip_state (record l { exceptions = insert ip tt l.exceptions }) ip) g
step-IsLogged l (unexcept ip) log v g = IsLogged-same l _ log refl g
step-IsLogged l (limit_ip n now) log v g = IsLogged-new _ refl
step-IsLogged l (limit_global n now) log v g = IsLogged-new _ refl
step-IsLogged l (limit_window n now) log v g = IsLogged-new _ refl
step-IsLogged l (limit_block n) log v g = IsLogged-same l _ log refl g
step-IsLogged l (limit_all per_ip global window hold now) log v g = IsLogged-new _ refl

-- What the log and the limiter keep to.
pub record IsWithin (l : RateLimiter) (log : List ℕ) : Type 0 where
  pub each : (ip : ℕ) → visits ip log ≤ l.per_ip_limit
  pub together : length log ≤ l.global_limit
  pub apart : (ip : ℕ) → has ip l.exceptions ≡ true → has ip l.blocked ≡ false
  pub tracked : length l.ip_state ≤ l.global_limit

unexempt_lem :
    (exceptions : List (ℕ × Unit {0})) (m : List (ℕ × BlockState)) (ip : ℕ)
    → All (Unexempt exceptions) m
    → has ip exceptions ≡ true
    → has ip m ≡ false
unfolding lookup
unexempt_lem exceptions [] ip h x = refl
unexempt_lem exceptions ((j, b) ∷ m) ip h x = elim (Bool-cases (j == ip)) [
  | inl t ↦
      let here : has ip exceptions ≡ false =
        subst (λ i. has i exceptions ≡ false) (ground arith) h.0 in
      cc
  | inr f ↦ rw (has, f) (unexempt_lem exceptions m ip h.1 x)
]

run_logged-IsWithin :
    (l : RateLimiter) (log : List ℕ) (os : List Operation)
    → IsLimiter l
    → IsLogged l log
    → let r = run_logged l log os in IsWithin r.0 r.1
unfolding run_logged
run_logged-IsWithin l log [] v g =
    let bounded = v.bounded in
    record {
      each = λ ip. omega (arith, g.each ip, count_in-le l.per_ip_limit ip l.ip_state v.counts);
      together = omega (arith, g.sum, bounded);
      apart = λ ip x. unexempt_lem l.exceptions l.blocked ip v.exempt x;
      tracked = length-ip_state l v;
    }
run_logged-IsWithin l log (o ∷ os) v g =
    run_logged-IsWithin (step l o) (let_in l o log) os (step-IsLimiter l o v)
      (step-IsLogged l o log v g)

-- A limiter is made with any settings, and any sequence of its calls follows: packets, timers, blocks,
-- exceptions and new limits. The log holds the addresses of the packets that `check` answered with
-- `Allow` since the window began or the limits were set, but for those of addresses that had an
-- exception. No address stands in it more often than `per_ip_limit`, and it is not longer than
-- `global_limit`. No address is both exempt and blocked, and no more addresses are tracked than
-- `global_limit`.
pub run_logged-new :
    (per_ip global window hold now : ℕ) (os : List Operation)
    → let r = run_logged (new per_ip global window hold now) [] os in IsWithin r.0 r.1
run_logged-new per_ip global window hold now os =
    run_logged-IsWithin _ [] os (new-IsLimiter per_ip global window hold now)
      (IsLogged-new _ (unfold new in refl))
