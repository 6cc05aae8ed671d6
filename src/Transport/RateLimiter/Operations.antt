-- ===== src/Transport/RateLimiter/Operations.antt =====
-- The calls of the limiter, and what each of them keeps.
use raknet_rust.Common.{
  ==_refl, ℕ, suc, ◌≤◌, ◌≡◌, refl, subst, sym, ap, ◌∙◌, inl, inr, max, true, false, ◌==◌, List, [],
  ◌∷◌, none, some, All, Bool-cases, Option-cases, arith,
}
use raknet_rust.Common.Map.{
  lookup, insert, remove, Above, lookup-insert, lookup-remove, remove-Above, remove-All,
}
use raknet_rust.Transport.RateLimiter.{
  BlockReason, BlockState, RateLimiter, has, new, reset_window_state, count_unblocked, tick,
  block_address_with_reason, block_address_for_with_reason, unblock_address, add_exception,
  remove_exception, check, set_per_ip_limit, set_global_limit, set_window, set_block_duration,
  update_limits,
}
use raknet_rust.Transport.RateLimiter.Bounds.{
  IsLimiter, Unexempt, with_blocked, tick-IsLimiter, set_block-IsLimiter, check-IsLimiter,
}

-- The public calls that change the limiter.
pub data Operation : Type 0 where
  packet : ℕ → ℕ → Operation
  timer : ℕ → Operation
  block : ℕ → BlockReason → Operation
  block_for : ℕ → ℕ → ℕ → BlockReason → Operation
  unblock except unexcept : ℕ → Operation
  limit_ip limit_global limit_window : ℕ → ℕ → Operation
  limit_block : ℕ → Operation
  limit_all : ℕ → ℕ → ℕ → ℕ → ℕ → Operation

unfoldable pub step : RateLimiter → Operation → RateLimiter
step l (packet ip now) = (check l ip now).0
step l (timer now) = tick l now
step l (block ip reason) = (block_address_with_reason l ip reason).0
step l (block_for ip now duration reason) =
    (block_address_for_with_reason l ip now duration reason).0
step l (unblock ip) = (unblock_address l ip).0
step l (except ip) = add_exception l ip
step l (unexcept ip) = remove_exception l ip
step l (limit_ip n now) = set_per_ip_limit l n now
step l (limit_global n now) = set_global_limit l n now
step l (limit_window n now) = set_window l n now
step l (limit_block n) = set_block_duration l n
step l (limit_all per_ip global window hold now) = update_limits l per_ip global window hold now

pub new-IsLimiter :
    (per_ip global window hold now : ℕ) → IsLimiter (new per_ip global window hold now)
unfolding new
new-IsLimiter per_ip global window hold now = record {
  per_ip = ground arith;
  global = ground arith;
  sorted = tt;
  counts = tt;
  total = omega arith;
  bounded = omega arith;
  blocks = tt;
  exempt = tt;
}

unblock-IsLimiter : (l : RateLimiter) (ip : ℕ) → IsLimiter l → IsLimiter (unblock_address l ip).0
unfolding unblock_address count_unblocked
unblock-IsLimiter l ip v = elim (Bool-cases (has ip l.blocked)) [
  | inr f ↦ rw f v
  | inl t ↦ rw t (
      with_blocked l _ v refl refl refl refl (remove-Above 0 ip l.blocked v.blocks)
        (remove-All (Unexempt l.exceptions) ip l.blocked v.exempt))
]

-- Without the address itself, the blocked addresses stay without an exception.
no_exception_kept :
    (n ip : ℕ) (exceptions : List (ℕ × Unit {0})) (m : List (ℕ × BlockState))
    → Above n m
    → All (Unexempt exceptions) m
    → lookup ip m ≡ none
    → All (Unexempt (insert ip tt exceptions)) m
unfolding lookup
no_exception_kept n ip exceptions [] s h e = tt
no_exception_kept n ip exceptions ((j, b) ∷ m) s h e =
    let apart : (j == ip) ≡ false = ground (arith, e) in
    let apart' : (ip == j) ≡ false = ground (arith, apart) in
    let rest : lookup ip m ≡ none = ground (arith, e, apart) in
    (
      ap (λ o. elim o [ some v ↦ true | none ↦ false ])
            (lookup-insert ip j tt exceptions ∙ rw apart' refl)
          ∙ h.0,
      no_exception_kept (suc j) ip exceptions m s.1 h.1 rest,
    )

lookup-removed : (n ip : ℕ) (m : List (ℕ × BlockState)) → Above n m → lookup ip (remove ip m) ≡ none
lookup-removed n ip m s = lookup-remove n ip ip m s ∙ rw (==_refl ip) refl

unblock_none :
    (l : RateLimiter) (ip : ℕ) → lookup ip l.blocked ≡ none → (unblock_address l ip).0 ≡ l
unfolding unblock_address
unblock_none l ip e = let f : has ip l.blocked ≡ false = rw (has, e) refl in rw f refl

unblock_some :
    (l : RateLimiter) (ip : ℕ) (b : BlockState)
    → lookup ip l.blocked ≡ some b
    → (unblock_address l ip).0 ≡ count_unblocked (record l { blocked = remove ip l.blocked }) 1
unfolding unblock_address
unblock_some l ip b e = let t : has ip l.blocked ≡ true = rw (has, e) refl in rw t refl

except-IsLimiter : (l : RateLimiter) (ip : ℕ) → IsLimiter l → IsLimiter (add_exception l ip)
unfolding add_exception count_unblocked
except-IsLimiter l ip v =
    let exempt = record l { exceptions = insert ip tt l.exceptions } in
    elim (Option-cases (lookup ip l.blocked)) [
      | inl e ↦ subst IsLimiter (sym (unblock_none exempt ip e)) (
          with_blocked l exempt v refl refl refl refl v.blocks
            (no_exception_kept 0 ip l.exceptions l.blocked v.blocks v.exempt e))
      | inr (b, e) ↦
          let sorted = remove-Above 0 ip l.blocked v.blocks in
          subst IsLimiter (sym (unblock_some exempt ip b e)) (
            with_blocked l _ v refl refl refl refl sorted (
              no_exception_kept 0 ip l.exceptions (remove ip l.blocked) sorted
                (remove-All (Unexempt l.exceptions) ip l.blocked v.exempt)
                (lookup-removed 0 ip l.blocked v.blocks)))
    ]

not_added : (ip j : ℕ) (m : List (ℕ × Unit {0})) → has j m ≡ false → has j (remove ip m) ≡ false
unfolding lookup remove
not_added ip j [] h = refl
not_added ip j ((k, u) ∷ m) h = ground (arith, not_added ip j m)

fewer_exceptions :
    (ip : ℕ) (exceptions : List (ℕ × Unit {0})) (m : List (ℕ × BlockState))
    → All (Unexempt exceptions) m
    → All (Unexempt (remove ip exceptions)) m
fewer_exceptions ip exceptions [] h = tt
fewer_exceptions ip exceptions ((j, b) ∷ m) h =
    (not_added ip j exceptions h.0, fewer_exceptions ip exceptions m h.1)

-- New limits come with an empty window.
limits-IsLimiter :
    (l : RateLimiter) (per_ip global window hold now : ℕ)
    → IsLimiter l
    → 1 ≤ per_ip
    → 1 ≤ global
    → IsLimiter (
        reset_window_state
          record l {
            per_ip_limit = per_ip;
            global_limit = global;
            window = window;
            block_duration = hold;
          }
          now)
unfolding reset_window_state
limits-IsLimiter l per_ip global window hold now v p g = record {
  per_ip = p;
  global = g;
  sorted = tt;
  counts = tt;
  total = omega arith;
  bounded = omega arith;
  blocks = v.blocks;
  exempt = v.exempt;
}

pub step-IsLimiter : (l : RateLimiter) (o : Operation) → IsLimiter l → IsLimiter (step l o)
unfolding step block_address_with_reason block_address_for_with_reason remove_exception
    set_per_ip_limit set_global_limit set_window set_block_duration update_limits
step-IsLimiter l (packet ip now) v = check-IsLimiter l ip now v
step-IsLimiter l (timer now) v = tick-IsLimiter l now v
step-IsLimiter l (block ip reason) v = set_block-IsLimiter l ip none reason v
step-IsLimiter l (block_for ip now duration reason) v = set_block-IsLimiter l ip _ reason v
step-IsLimiter l (unblock ip) v = unblock-IsLimiter l ip v
step-IsLimiter l (except ip) v = except-IsLimiter l ip v
step-IsLimiter l (unexcept ip) v =
    with_blocked l _ v refl refl refl refl v.blocks
      (fewer_exceptions ip l.exceptions l.blocked v.exempt)
step-IsLimiter l (limit_ip n now) v =
    limits-IsLimiter l (max n 1) l.global_limit l.window l.block_duration now v (ground arith)
      v.global
step-IsLimiter l (limit_global n now) v =
    limits-IsLimiter l l.per_ip_limit (max n 1) l.window l.block_duration now v v.per_ip
      (ground arith)
step-IsLimiter l (limit_window n now) v =
    limits-IsLimiter l l.per_ip_limit l.global_limit _ l.block_duration now v v.per_ip v.global
step-IsLimiter l (limit_block n) v = with_blocked l _ v refl refl refl refl v.blocks v.exempt
step-IsLimiter l (limit_all per_ip global window hold now) v =
    limits-IsLimiter l (max per_ip 1) (max global 1) _ _ now v (ground arith) (ground arith)
