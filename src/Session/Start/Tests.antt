-- ===== src/Session/Start/Tests.antt =====
-- The theorem on new sessions at the default settings.
use raknet_rust.Common.{ℕ, ◌≡◌, refl, some, ok, arith}
use raknet_rust.Common.Floats.{thousandths, ℕ-IsFloats}
use raknet_rust.Session.Tick.{Session}
use raknet_rust.Session.Tunables.{congestion_settings, default}
use raknet_rust.Session.Tunables.Checks.{
  check_flush, check_limits, check_rto, check_window, check_reaction, check_pacing, check_queue,
  validate,
}
use raknet_rust.Session.Start.{with_tunables}
use raknet_rust.Session.Start.Valid.{IsSession, with_tunables-IsSession}

accepted : validate {F = ℕ} default ≡ ok tt
unfolding validate check_flush check_limits check_rto check_window check_reaction check_pacing
    check_queue default congestion_settings
accepted = refl

with_tunables-IsSession_usual :
    (s : Session ℕ) × (with_tunables 1400 default 7 ≡ some s) × IsSession 1400 s
with_tunables-IsSession_usual =
    with_tunables-IsSession ℕ-IsFloats 1400 default 7 accepted (unfold default in omega arith)
      (unfold default in omega arith)
