-- ===== src/Transport/RateLimiter/Tests.antt =====
-- The limiter's theorems at concrete packets.
use raknet_rust.Common.{ℕ, ◌+◌, ◌≤◌, ◌<◌, ◌≡◌, ◌↔◌, ◌⊎◌, refl, false, [], ◌∷◌, none, some, arith}
use raknet_rust.Common.Map.{lookup, insert}
use raknet_rust.Transport.RateLimiter.{
  handshake_heuristic, allow, ip_blocked, BlockState, RateLimiter, has, new, normalize_duration,
  count_of, check, check_ticked, check_blocked, check_count, tick, rotate_window_if_needed,
  prune_expired_blocks, count_unblocked, retain_blocks, set_block, record_new_block,
}
use raknet_rust.Transport.RateLimiter.Bounds.{IsLimiter, set_block-IsLimiter}
use raknet_rust.Transport.RateLimiter.History.{admitted, admitted-le}
use raknet_rust.Transport.RateLimiter.Operations.{packet, block_for, except, step, new-IsLimiter}
use raknet_rust.Transport.RateLimiter.Log.{run_logged, IsWithin, run_logged-new}
use raknet_rust.Transport.RateLimiter.Blocks.{check-is_expired, check-allow}

abbrev limiter : RateLimiter
limiter = new 2 5 1_000_000_000 9_000_000 0

limiter-IsLimiter : IsLimiter limiter
limiter-IsLimiter = new-IsLimiter 2 5 1_000_000_000 9_000_000 0

admitted-le_three :
    count_of limiter 7 + admitted limiter 7 ((7, 10) ∷ (8, 11) ∷ (7, 12) ∷ (7, 13) ∷ [])
    ≤ limiter.per_ip_limit
admitted-le_three =
    admitted-le limiter 7 ((7, 10) ∷ (8, 11) ∷ (7, 12) ∷ (7, 13) ∷ []) limiter-IsLimiter
      (unfold new lookup in refl)
      (unfold new normalize_duration in
        (omega arith, (omega arith, (omega arith, (omega arith, tt)))))

run_logged-new_three :
    let r =
      run_logged
        (new 2 5 0 9 0)
        []
        (packet 7 10 ∷ packet 7 11 ∷ block_for 8 11 5 handshake_heuristic ∷ except 8 ∷ []) in
    IsWithin r.0 r.1
run_logged-new_three =
    run_logged-new 2 5 0 9 0
      (packet 7 10 ∷ packet 7 11 ∷ block_for 8 11 5 handshake_heuristic ∷ except 8 ∷ [])

log_lem :
    (run_logged limiter [] (packet 7 10 ∷ packet 8 11 ∷ packet 7 12 ∷ packet 7 13 ∷ [])).1
    ≡ 7 ∷ 8 ∷ 7 ∷ []
unfolding run_logged step check tick check_ticked check_blocked check_count count_of new lookup
    insert normalize_duration rotate_window_if_needed prune_expired_blocks count_unblocked
    retain_blocks
log_lem = refl

abbrev state : BlockState
state = record { blocked_until = some 2_000_000; reason = handshake_heuristic }

abbrev held : RateLimiter
held = (set_block limiter 8 (some 2_000_000) handshake_heuristic).0

held-IsLimiter : IsLimiter held
held-IsLimiter =
    set_block-IsLimiter limiter 8 (some 2_000_000) handshake_heuristic limiter-IsLimiter

held-exceptions : has 8 held.exceptions ≡ false
unfolding set_block new lookup record_new_block
held-exceptions = refl

held-blocked : lookup 8 held.blocked ≡ some state
unfolding set_block new lookup insert record_new_block
held-blocked = refl

check-is_expired-held : ((check held 8 1_500_000).1 ≡ ip_blocked false handshake_heuristic) ↔ (
    (state.blocked_until ≡ none)
    ⊎ ((until : ℕ) × (state.blocked_until ≡ some until) × (1_500_000 < until)))
check-is_expired-held =
    check-is_expired held 8 1_500_000 state held-IsLimiter held-exceptions held-blocked

check-allow_held : (check held 8 1_000_000_000).1 ≡ allow
check-allow_held =
    check-allow held 8 1_000_000_000 state 2_000_000 held-IsLimiter held-exceptions held-blocked
      refl (omega arith)
      (unfold set_block new lookup record_new_block normalize_duration in omega arith)
