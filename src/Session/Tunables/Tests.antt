-- ===== src/Session/Tunables/Tests.antt =====
-- Settings that are accepted, and settings that are not.
use raknet_rust.Common.{ℕ, ◌≡◌, refl, ok}
use raknet_rust.Common.Floats.{thousandths}
use raknet_rust.Session.Tunables.{congestion_settings, default}
use raknet_rust.Session.Tunables.Checks.{
  check_flush, check_limits, check_rto, check_window, check_reaction, check_pacing, check_queue,
  validate,
}

default_accepted : validate {F = ℕ} default ≡ ok tt
unfolding validate check_flush check_limits check_rto check_window check_reaction check_pacing
    check_queue default congestion_settings
default_accepted = refl

-- The manual settings count only for a custom profile.
manual_ignored :
    validate {F = ℕ} (record default {
      manual_flush = record (default {F = ℕ}).manual_flush { ack_flush_interval = 0 };
    })
    ≡ ok tt
unfolding validate check_flush check_limits check_rto check_window check_reaction check_pacing
    check_queue default congestion_settings
manual_ignored = refl
