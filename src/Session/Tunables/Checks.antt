-- ===== src/Session/Tunables/Checks.antt =====
-- src/session/tunables.rs: the checks of the settings, in the order of `validate`.
use Prim.Native.String.{String}
use raknet_rust.Common.{ℕ, not, ◌||◌, ◌==◌, ltb, Result, ◌>>◌, fail_if}
use raknet_rust.Common.Floats.{Floats}
use raknet_rust.Protocol.Errors.{ConfigValidationError}
use raknet_rust.Session.Tunables.{
  AckNackFlushSettings, CongestionSettings, SessionTunables, resolved_ack_nack_flush_settings,
  resolved_congestion_settings,
}

-- The error of a setting out of range.
abbrev pub invalid : String → String → ConfigValidationError
invalid field message = record { config = "SessionTunables"; field = field; message = message }

abbrev pub Checked : Type 0
Checked = Result ConfigValidationError (Unit {0})

abbrev pub require_some : ℕ → String → Checked
require_some n field = fail_if (n == 0) (invalid field "must be >= 1")

abbrev pub require_time : ℕ → String → Checked
require_time n field = fail_if (n == 0) (invalid field "must be > 0")

unfoldable pub check_flush : AckNackFlushSettings → Checked
check_flush a = do
  require_time a.ack_flush_interval "ack_flush_interval"
  require_time a.nack_flush_interval "nack_flush_interval"
  require_some a.ack_max_ranges_per_datagram "ack_max_ranges_per_datagram"
  require_some a.nack_max_ranges_per_datagram "nack_max_ranges_per_datagram"

module _ {F : Type 0} where
  unfoldable pub check_limits : SessionTunables F → Checked
  check_limits t = do
    require_some t.ack_queue_capacity "ack_queue_capacity"
    require_some t.reliable_window "reliable_window"
    require_time t.split_ttl "split_ttl"
    require_some t.max_split_parts "max_split_parts"
    require_some t.max_concurrent_splits "max_concurrent_splits"
    require_some t.max_ordering_channels "max_ordering_channels"
    require_some t.max_ordered_pending_per_channel "max_ordered_pending_per_channel"
    require_some t.max_order_gap "max_order_gap"

  unfoldable pub check_rto : CongestionSettings F → Checked
  check_rto c = do
    require_time c.min_resend_rto "min_resend_rto"
    require_time c.max_resend_rto "max_resend_rto"
    fail_if (ltb c.max_resend_rto c.min_resend_rto)
        (invalid "min_resend_rto" "must be <= max_resend_rto")
    fail_if (ltb c.resend_rto c.min_resend_rto || ltb c.max_resend_rto c.resend_rto)
        (invalid "resend_rto" "must be within [min_resend_rto, max_resend_rto]")

module _ {F : Type 0} ⦃d : Floats F⦄ where
  abbrev pub validate_positive_f64 : F → String → Checked
  validate_positive_f64 value field =
      fail_if (not (d.is_finite value) || d.le value (d.decimal 0 0))
        (invalid field "must be finite and > 0")

  abbrev pub validate_fraction : F → String → Checked
  validate_fraction value field =
      fail_if (not (d.is_finite value) || d.le value (d.decimal 0 0) || d.le (d.decimal 1 0) value)
        (invalid field "must be finite and within (0, 1)")

  unfoldable pub check_window : CongestionSettings F → Checked
  check_window c = do
    validate_positive_f64 c.initial_congestion_window "initial_congestion_window"
    validate_positive_f64 c.min_congestion_window "min_congestion_window"
    validate_positive_f64 c.max_congestion_window "max_congestion_window"
    fail_if (d.lt c.max_congestion_window c.min_congestion_window)
        (invalid "min_congestion_window" "must be <= max_congestion_window")
    fail_if
        (d.lt c.initial_congestion_window c.min_congestion_window
          || d.lt c.max_congestion_window c.initial_congestion_window)
        (invalid "initial_congestion_window"
          "must be within [min_congestion_window, max_congestion_window]")
    fail_if
        (d.lt c.congestion_slow_start_threshold c.min_congestion_window
          || d.lt c.max_congestion_window c.congestion_slow_start_threshold)
        (invalid "congestion_slow_start_threshold"
          "must be within [min_congestion_window, max_congestion_window]")

  unfoldable pub check_reaction : CongestionSettings F → Checked
  check_reaction c = do
    validate_positive_f64 c.congestion_additive_gain "congestion_additive_gain"
    validate_fraction c.congestion_multiplicative_decrease_nack
        "congestion_multiplicative_decrease_nack"
    validate_fraction c.congestion_multiplicative_decrease_timeout
        "congestion_multiplicative_decrease_timeout"
    validate_positive_f64 c.congestion_high_rtt_threshold_ms "congestion_high_rtt_threshold_ms"
    fail_if
        (not (d.is_finite c.congestion_high_rtt_additive_scale)
          || d.le c.congestion_high_rtt_additive_scale (d.decimal 0 0)
          || d.lt (d.decimal 1 0) c.congestion_high_rtt_additive_scale)
        (invalid "congestion_high_rtt_additive_scale" "must be finite and within (0, 1]")
    require_time c.congestion_nack_backoff_cooldown "congestion_nack_backoff_cooldown"

  unfoldable pub check_pacing : SessionTunables F → Checked
  check_pacing t = do
    validate_positive_f64 t.pacing_gain "pacing_gain"
    validate_positive_f64 t.pacing_min_rate_bytes_per_sec "pacing_min_rate_bytes_per_sec"
    validate_positive_f64 t.pacing_max_rate_bytes_per_sec "pacing_max_rate_bytes_per_sec"
    fail_if (d.lt t.pacing_max_rate_bytes_per_sec t.pacing_min_rate_bytes_per_sec)
        (invalid "pacing_min_rate_bytes_per_sec" "must be <= pacing_max_rate_bytes_per_sec")
    require_some t.pacing_max_burst_bytes "pacing_max_burst_bytes"

  unfoldable pub check_queue : SessionTunables F → Checked
  check_queue t = do
    require_some t.outgoing_queue_max_frames "outgoing_queue_max_frames"
    require_some t.outgoing_queue_max_bytes "outgoing_queue_max_bytes"
    validate_fraction t.outgoing_queue_soft_ratio "outgoing_queue_soft_ratio"

  unfoldable pub validate : SessionTunables F → Checked
  validate t = do
    check_flush (resolved_ack_nack_flush_settings t)
    check_limits t
    check_rto (resolved_congestion_settings t)
    check_window (resolved_congestion_settings t)
    check_reaction (resolved_congestion_settings t)
    check_pacing t
    check_queue t
