-- ===== src/Session/Start.antt =====
-- src/session/mod.rs: a new session from its settings.
pub mod Valid
mod Tests
use raknet_rust.Common.{
  ℕ, ◌+◌, min, max, Bool, true, false, ltb, if◌then◌else◌, List, [], replicate, Option, none, some,
}
use raknet_rust.Common.Floats.{Floats}
use raknet_rust.Session.State.{offline}
use raknet_rust.Session.ReliableTracker
use raknet_rust.Session.AckQueue.{new_queue}
use raknet_rust.Session.SplitAssembler
use raknet_rust.Session.OrderingChannels
use raknet_rust.Session.AckFlow.{AckFlow}
use raknet_rust.Session.Receive.{Receiver}
use raknet_rust.Session.Outgoing.{Sender, first_weights}
use raknet_rust.Session.Congestion.{Congestion}
use raknet_rust.Session.Sent.{Sent}
use raknet_rust.Session.Tick.{Session}
use raknet_rust.Session.Tunables.{
  SessionTunables, CongestionSettings, AckNackFlushSettings, resolved_ack_nack_flush_settings,
  resolved_congestion_settings, from_millis, default,
}

-- `Duration::clamp`, which panics if the limits are the wrong way round.
abbrev pub clamp_duration : ℕ → ℕ → ℕ → Option ℕ
clamp_duration x lo hi = if ltb hi lo then none else some (min (max x lo) hi)

unfoldable pub new_flow : {F : Type 0} → SessionTunables F → AckNackFlushSettings → ℕ → ℕ → AckFlow
new_flow t a mtu now = record {
  mtu = mtu;
  datagram_read_index = 0;
  outgoing_acks = new_queue t.ack_queue_capacity;
  outgoing_nacks = new_queue t.ack_queue_capacity;
  ack_flush_interval = a.ack_flush_interval;
  nack_flush_interval = a.nack_flush_interval;
  ack_max_ranges_per_datagram = a.ack_max_ranges_per_datagram;
  nack_max_ranges_per_datagram = a.nack_max_ranges_per_datagram;
  next_ack_flush_at = now;
  next_nack_flush_at = now;
  ack_out_datagrams = 0;
  nack_out_datagrams = 0;
}

unfoldable pub new_receiver : {F : Type 0} → SessionTunables F → AckFlow → Receiver
new_receiver t flow = record {
  flow = flow;
  reliable_tracker = ReliableTracker.new t.reliable_window;
  split_assembler = SplitAssembler.new t.split_ttl t.max_split_parts t.max_concurrent_splits;
  ordering =
      OrderingChannels.new t.max_ordering_channels t.max_ordered_pending_per_channel
        t.max_order_gap;
  incoming_acks = [];
  incoming_nacks = [];
  metrics = record {
    ingress_datagrams = 0;
    ingress_frames = 0;
    duplicate_reliable_drops = 0;
    ordered_stale_drops = 0;
    ordered_buffer_full_drops = 0;
    sequenced_stale_drops = 0;
    sequenced_missing_index_drops = 0;
    split_ttl_drops = 0;
  };
}

unfoldable pub new_sender : {F : Type 0} → SessionTunables F → ℕ → Sender
unfolding first_weights
new_sender t mtu = record {
  mtu = mtu;
  reliable_write_index = 0;
  split_write_index = 0;
  ordering_write_index = replicate 16 0;
  sequencing_write_index = replicate 16 0;
  outgoing_heap = [];
  outgoing_next_weights = first_weights;
  last_min_weight = 0;
  outgoing_queued_bytes = 0;
  outgoing_queue_max_frames = max t.outgoing_queue_max_frames 1;
  outgoing_queue_max_bytes = max t.outgoing_queue_max_bytes 1;
  backpressure_mode = t.backpressure_mode;
  disconnect_requested_by_backpressure = false;
  metrics = record {
    outgoing_queue_drops = 0;
    outgoing_queue_defers = 0;
    outgoing_queue_disconnects = 0;
    backpressure_delays = 0;
    backpressure_drops = 0;
    backpressure_disconnects = 0;
  };
}

module _ {F : Type 0} ⦃d : Floats F⦄ where
  -- `f64::clamp`, which panics if the limits are the wrong way round or no numbers.
  abbrev pub clamp_f64 : F → F → F → Option F
  clamp_f64 x lo hi = if d.le lo hi then some (d.clamp x lo hi) else none

  abbrev pub min_cwnd : CongestionSettings F → F
  min_cwnd c = d.fmax c.min_congestion_window (d.decimal 1 0)

  abbrev pub max_cwnd : CongestionSettings F → F
  max_cwnd c = d.fmax c.max_congestion_window (min_cwnd c)

  -- What the settings determine beside the results of `clamp`, whose limits are numbers in them.
  unfoldable pub new_congestion :
      SessionTunables F → CongestionSettings F → ℕ → ℕ → F → F → Congestion F
  new_congestion t c now rto initial threshold =
      let one = d.decimal 1 0 in
      let min_rate = d.fmax t.pacing_min_rate_bytes_per_sec one in
      let max_rate = d.fmax t.pacing_max_rate_bytes_per_sec min_rate in
      let budget_max = d.of_nat (max t.pacing_max_burst_bytes 1) in
      record {
        resend_rto = rto;
        min_resend_rto = c.min_resend_rto;
        max_resend_rto = c.max_resend_rto;
        srtt_ms = none;
        rttvar_ms = d.decimal 0 0;
        congestion_window_packets = d.fmax initial one;
        min_congestion_window_packets = min_cwnd c;
        max_congestion_window_packets = max_cwnd c;
        slow_start_threshold_packets = threshold;
        congestion_additive_gain = d.fmax c.congestion_additive_gain (d.decimal 1 2);
        congestion_multiplicative_decrease_nack =
            d.clamp c.congestion_multiplicative_decrease_nack (d.decimal 1 1) (d.decimal 99 2);
        congestion_multiplicative_decrease_timeout =
            d.clamp c.congestion_multiplicative_decrease_timeout (d.decimal 1 1) (d.decimal 99 2);
        high_rtt_threshold_ms = d.fmax c.congestion_high_rtt_threshold_ms one;
        high_rtt_additive_scale = d.clamp c.congestion_high_rtt_additive_scale (d.decimal 5 2) one;
        nack_loss_backoff_cooldown = max c.congestion_nack_backoff_cooldown (from_millis 1);
        next_nack_loss_backoff = now;
        pacing_enabled = t.pacing_enabled;
        pacing_gain = d.fmax t.pacing_gain (d.decimal 5 2);
        pacing_min_rate_bytes_per_sec = min_rate;
        pacing_max_rate_bytes_per_sec = max_rate;
        pacing_budget_max_bytes = budget_max;
        pacing_budget_bytes = if t.pacing_start_full then budget_max else d.decimal 0 0;
        pacing_rate_bytes_per_sec = min_rate;
        last_pacing_update = now;
      }

  unfoldable pub new_sent : Congestion F → Sent F
  new_sent c = record {
    datagram_write_index = 0;
    sent_datagrams = [];
    receipt_tracking = [];
    congestion = c;
    metrics = record {
      reliable_sent_datagrams = 0;
      resent_datagrams = 0;
      acked_datagrams = 0;
      nacked_datagrams = 0;
    };
  }

  unfoldable pub with_congestion_state : SessionTunables F → ℕ → ℕ → Congestion F → Session F
  with_congestion_state t mtu now c =
      let a = resolved_ack_nack_flush_settings t in
      record {
        state = offline;
        last_activity = now;
        last_keepalive_sent = now;
        ack_nack_priority = a.ack_nack_priority;
        receiver = new_receiver t (new_flow t a mtu now);
        sender = new_sender t mtu;
        sent = new_sent c;
      }

  -- `now` stands for the clock, and `none` for a panic in one of the calls of `clamp`.
  unfoldable pub with_tunables : ℕ → SessionTunables F → ℕ → Option (Session F)
  with_tunables mtu t now =
      let c = resolved_congestion_settings t in
      elim (clamp_f64 c.initial_congestion_window (min_cwnd c) (max_cwnd c)) [
        | none ↦ none
        | some initial ↦
            elim (clamp_f64 c.congestion_slow_start_threshold (min_cwnd c) (max_cwnd c)) [
              | none ↦ none
              | some threshold ↦
                  elim (clamp_duration c.resend_rto c.min_resend_rto c.max_resend_rto) [
                    | none ↦ none
                    | some rto ↦ some (
                        with_congestion_state t mtu now
                          (new_congestion t c now rto initial threshold))
                  ]
            ]
      ]

  unfoldable pub new : ℕ → ℕ → Option (Session F)
  new mtu now = with_tunables mtu default now
