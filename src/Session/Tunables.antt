-- ===== src/Session/Tunables.antt =====
-- src/session/tunables.rs: the settings of a session and their defaults. Durations are nanoseconds.
pub mod Checks
mod Tests
use Prim.Native.String.{String}
use raknet_rust.Common.{
  ℕ, ◌*◌, Bool, true, false, not, ◌||◌, ◌==◌, ltb, Result, ok, err, ◌>>=◌, ◌>>◌, fail_if,
}
use raknet_rust.Common.Floats.{Floats}
use raknet_rust.Protocol.Errors.{ConfigValidationError}
use raknet_rust.Protocol.Constants.{
  max_ack_sequences, max_split_parts, split_reassembly_ttl_ms,
  max_inflight_split_compounds_per_peer,
}
use raknet_rust.Session.Outgoing.{BackpressureMode, shed}
use raknet_rust.Session.Tick.{AckNackPriority, nack_first}

pub data AckNackFlushProfile : Type 0 where
  low_latency balanced throughput custom_flush : AckNackFlushProfile

pub data CongestionProfile : Type 0 where
  conservative high_latency custom_congestion : CongestionProfile

pub record AckNackFlushSettings : Type 0 where
  pub ack_flush_interval : ℕ
  pub nack_flush_interval : ℕ
  pub ack_max_ranges_per_datagram : ℕ
  pub nack_max_ranges_per_datagram : ℕ
  pub ack_nack_priority : AckNackPriority

pub record CongestionSettings (F : Type 0) : Type 0 where
  pub resend_rto : ℕ
  pub min_resend_rto : ℕ
  pub max_resend_rto : ℕ
  pub initial_congestion_window : F
  pub min_congestion_window : F
  pub max_congestion_window : F
  pub congestion_slow_start_threshold : F
  pub congestion_additive_gain : F
  pub congestion_multiplicative_decrease_nack : F
  pub congestion_multiplicative_decrease_timeout : F
  pub congestion_high_rtt_threshold_ms : F
  pub congestion_high_rtt_additive_scale : F
  pub congestion_nack_backoff_cooldown : ℕ

-- The settings of both records stand side by side in the source; here they are `manual_flush` and
-- `manual_congestion`.
pub record SessionTunables (F : Type 0) : Type 0 where
  pub ack_nack_flush_profile : AckNackFlushProfile
  pub congestion_profile : CongestionProfile
  pub manual_flush : AckNackFlushSettings
  pub ack_queue_capacity : ℕ
  pub backpressure_mode : BackpressureMode
  pub reliable_window : ℕ
  pub split_ttl : ℕ
  pub max_split_parts : ℕ
  pub max_concurrent_splits : ℕ
  pub max_ordering_channels : ℕ
  pub max_ordered_pending_per_channel : ℕ
  pub max_order_gap : ℕ
  pub manual_congestion : CongestionSettings F
  pub pacing_enabled : Bool
  pub pacing_start_full : Bool
  pub pacing_gain : F
  pub pacing_min_rate_bytes_per_sec : F
  pub pacing_max_rate_bytes_per_sec : F
  pub pacing_max_burst_bytes : ℕ
  pub outgoing_queue_max_frames : ℕ
  pub outgoing_queue_max_bytes : ℕ
  pub outgoing_queue_soft_ratio : F
  pub best_effort_zeroize_dropped_payloads : Bool

abbrev pub from_millis : ℕ → ℕ
from_millis ms = ms * 1_000_000

abbrev pub flush_settings : AckNackFlushProfile → AckNackFlushSettings
flush_settings low_latency = record {
  ack_flush_interval = from_millis 4;
  nack_flush_interval = from_millis 1;
  ack_max_ranges_per_datagram = 24;
  nack_max_ranges_per_datagram = 64;
  ack_nack_priority = nack_first;
}
flush_settings balanced = record {
  ack_flush_interval = from_millis 10;
  nack_flush_interval = from_millis 2;
  ack_max_ranges_per_datagram = 48;
  nack_max_ranges_per_datagram = 96;
  ack_nack_priority = nack_first;
}
flush_settings throughput = record {
  ack_flush_interval = from_millis 24;
  nack_flush_interval = from_millis 4;
  ack_max_ranges_per_datagram = 96;
  nack_max_ranges_per_datagram = 128;
  ack_nack_priority = nack_first;
}
flush_settings custom_flush = record {
  ack_flush_interval = from_millis 10;
  nack_flush_interval = from_millis 2;
  ack_max_ranges_per_datagram = 48;
  nack_max_ranges_per_datagram = 96;
  ack_nack_priority = nack_first;
}

module _ {F : Type 0} where
  abbrev pub resolved_ack_nack_flush_settings : SessionTunables F → AckNackFlushSettings
  resolved_ack_nack_flush_settings t = elim t.ack_nack_flush_profile [
    | low_latency ↦ flush_settings low_latency
    | balanced ↦ flush_settings balanced
    | throughput ↦ flush_settings throughput
    | custom_flush ↦ t.manual_flush
  ]

module _ {F : Type 0} ⦃d : Floats F⦄ where
  unfoldable pub congestion_settings : CongestionProfile → CongestionSettings F
  congestion_settings high_latency = record {
    resend_rto = from_millis 350;
    min_resend_rto = from_millis 120;
    max_resend_rto = from_millis 3_000;
    initial_congestion_window = d.decimal 48 0;
    min_congestion_window = d.decimal 8 0;
    max_congestion_window = d.decimal 768 0;
    congestion_slow_start_threshold = d.decimal 96 0;
    congestion_additive_gain = d.decimal 85 2;
    congestion_multiplicative_decrease_nack = d.decimal 92 2;
    congestion_multiplicative_decrease_timeout = d.decimal 75 2;
    congestion_high_rtt_threshold_ms = d.decimal 140 0;
    congestion_high_rtt_additive_scale = d.decimal 85 2;
    congestion_nack_backoff_cooldown = from_millis 100;
  }
  -- Also for `Custom`.
  congestion_settings profile = record {
    resend_rto = from_millis 250;
    min_resend_rto = from_millis 80;
    max_resend_rto = from_millis 2_000;
    initial_congestion_window = d.decimal 64 0;
    min_congestion_window = d.decimal 8 0;
    max_congestion_window = d.decimal 1024 0;
    congestion_slow_start_threshold = d.decimal 128 0;
    congestion_additive_gain = d.decimal 1 0;
    congestion_multiplicative_decrease_nack = d.decimal 85 2;
    congestion_multiplicative_decrease_timeout = d.decimal 6 1;
    congestion_high_rtt_threshold_ms = d.decimal 180 0;
    congestion_high_rtt_additive_scale = d.decimal 6 1;
    congestion_nack_backoff_cooldown = from_millis 50;
  }

  abbrev pub resolved_congestion_settings : SessionTunables F → CongestionSettings F
  resolved_congestion_settings t = elim t.congestion_profile [
    | conservative ↦ congestion_settings conservative
    | high_latency ↦ congestion_settings high_latency
    | custom_congestion ↦ t.manual_congestion
  ]

  unfoldable pub default : SessionTunables F
  unfolding congestion_settings
  default = record {
    ack_nack_flush_profile = balanced;
    congestion_profile = conservative;
    manual_flush = flush_settings balanced;
    ack_queue_capacity = 1024;
    backpressure_mode = shed;
    reliable_window = max_ack_sequences;
    split_ttl = from_millis split_reassembly_ttl_ms;
    max_split_parts = max_split_parts;
    max_concurrent_splits = max_inflight_split_compounds_per_peer;
    max_ordering_channels = 16;
    max_ordered_pending_per_channel = 2048;
    max_order_gap = max_ack_sequences;
    manual_congestion = congestion_settings conservative;
    pacing_enabled = true;
    pacing_start_full = true;
    pacing_gain = d.decimal 1 0;
    pacing_min_rate_bytes_per_sec = d.mul (d.decimal 24 0) (d.decimal 1024 0);
    pacing_max_rate_bytes_per_sec =
        d.mul (d.mul (d.decimal 32 0) (d.decimal 1024 0)) (d.decimal 1024 0);
    pacing_max_burst_bytes = 128 * 1024;
    outgoing_queue_max_frames = 8192;
    outgoing_queue_max_bytes = 8 * 1024 * 1024;
    outgoing_queue_soft_ratio = d.decimal 85 2;
    best_effort_zeroize_dropped_payloads = false;
  }
