-- ===== src/Session/Congestion/Samples.antt =====
-- A congestion state for the tests: the settings by default, in thousandths.
use raknet_rust.Common.{ℕ, true, none}
use raknet_rust.Session.Congestion.{Congestion}

abbrev pub fresh : Congestion ℕ
fresh = record {
  resend_rto = 250_000_000;
  min_resend_rto = 80_000_000;
  max_resend_rto = 2_000_000_000;
  srtt_ms = none;
  rttvar_ms = 0;
  congestion_window_packets = 64_000;
  min_congestion_window_packets = 8_000;
  max_congestion_window_packets = 1_024_000;
  slow_start_threshold_packets = 128_000;
  congestion_additive_gain = 1_000;
  congestion_multiplicative_decrease_nack = 850;
  congestion_multiplicative_decrease_timeout = 600;
  high_rtt_threshold_ms = 180_000;
  high_rtt_additive_scale = 600;
  nack_loss_backoff_cooldown = 50_000_000;
  next_nack_loss_backoff = 0;
  pacing_enabled = true;
  pacing_gain = 1_000;
  pacing_min_rate_bytes_per_sec = 24_576_000;
  pacing_max_rate_bytes_per_sec = 33_554_432_000;
  pacing_budget_max_bytes = 131_072_000;
  pacing_budget_bytes = 131_072_000;
  pacing_rate_bytes_per_sec = 24_576_000;
  last_pacing_update = 0;
}
