-- ===== src/Session/Congestion.antt =====
-- src/session/mod.rs: how much a session may have in flight, and how fast it sends. The record has the
-- fields of `Session` that these functions read and write; durations and instants are nanoseconds.
pub mod Window
pub mod Samples
mod Tests
use raknet_rust.Common.{
  ℕ, ◌+◌, ◌-◌, ◌*◌, ◌/◌, ◌^◌, min, Bool, true, false, not, ◌&&◌, ltb, leb, if◌then◌else◌, Option,
  none, some,
}
use raknet_rust.Common.Floats.{Floats}

pub record Congestion (F : Type 0) : Type 0 where
  pub resend_rto : ℕ
  pub min_resend_rto : ℕ
  pub max_resend_rto : ℕ
  pub srtt_ms : Option F
  pub rttvar_ms : F
  pub congestion_window_packets : F
  pub min_congestion_window_packets : F
  pub max_congestion_window_packets : F
  pub slow_start_threshold_packets : F
  pub congestion_additive_gain : F
  pub congestion_multiplicative_decrease_nack : F
  pub congestion_multiplicative_decrease_timeout : F
  pub high_rtt_threshold_ms : F
  pub high_rtt_additive_scale : F
  pub nack_loss_backoff_cooldown : ℕ
  pub next_nack_loss_backoff : ℕ
  pub pacing_enabled : Bool
  pub pacing_gain : F
  pub pacing_min_rate_bytes_per_sec : F
  pub pacing_max_rate_bytes_per_sec : F
  pub pacing_budget_max_bytes : F
  pub pacing_budget_bytes : F
  pub pacing_rate_bytes_per_sec : F
  pub last_pacing_update : ℕ

-- `Duration::as_secs_f64` and `Duration::from_secs_f64`, whose rounding is that of the language.
pub record Seconds (F : Type 0) : Type 0 where
  pub as_secs_f64 : ℕ → F
  pub from_secs_f64 : F → ℕ

-- Seconds in thousandths, for the tests.
instance abbrev pub nanoseconds : Seconds ℕ
nanoseconds = record { as_secs_f64 = λ ns. ns / 1_000_000; from_secs_f64 = λ x. x * 1_000_000 }

-- `Duration::MAX`.
abbrev max_duration : ℕ
max_duration = (2 ^ 64 - 1) * 1_000_000_000 + 999_999_999

module _ {F : Type 0} ⦃d : Floats F⦄ where
  -- In how many packets the window may be raised for one datagram that arrived.
  abbrev slow_start_gain : Congestion F → F
  slow_start_gain c =
      if d.lt c.congestion_window_packets c.slow_start_threshold_packets
      then d.fmax c.congestion_additive_gain (d.decimal 1 0)
      else d.div c.congestion_additive_gain (d.fmax c.congestion_window_packets (d.decimal 1 0))

  abbrev is_high_rtt : Congestion F → Bool
  is_high_rtt c = elim c.srtt_ms [ none ↦ false | some srtt ↦ d.le c.high_rtt_threshold_ms srtt ]

  abbrev additive_gain : Congestion F → F
  additive_gain c =
      if is_high_rtt c
      then d.mul (slow_start_gain c) c.high_rtt_additive_scale
      else slow_start_gain c

  unfoldable pub on_reliable_ack : Congestion F → Congestion F
  on_reliable_ack c = record c {
    congestion_window_packets =
        d.clamp (d.add c.congestion_window_packets (d.fmax (additive_gain c) (d.decimal 1 3)))
          c.min_congestion_window_packets c.max_congestion_window_packets;
  }

  unfoldable pub apply_loss_backoff : Congestion F → F → Congestion F
  apply_loss_backoff c factor =
      let reduced =
        d.clamp
          (d.mul c.congestion_window_packets (d.clamp factor (d.decimal 1 1) (d.decimal 99 2)))
          c.min_congestion_window_packets c.max_congestion_window_packets in
      record c { slow_start_threshold_packets = reduced; congestion_window_packets = reduced }

  unfoldable pub on_timeout : Congestion F → ℕ → Congestion F
  on_timeout c now =
      let c = apply_loss_backoff c c.congestion_multiplicative_decrease_timeout in
      record c {
        resend_rto = min (min (c.resend_rto * 2) max_duration) c.max_resend_rto;
        next_nack_loss_backoff = now + c.nack_loss_backoff_cooldown;
      }

  unfoldable pub on_nack_loss : Congestion F → ℕ → Congestion F
  on_nack_loss c now =
      let backed = apply_loss_backoff c c.congestion_multiplicative_decrease_nack in
      if ltb now c.next_nack_loss_backoff
      then c
      else record backed { next_nack_loss_backoff = now + c.nack_loss_backoff_cooldown }

  unfoldable pub can_emit_new_reliable_datagram : Congestion F → ℕ → Bool
  can_emit_new_reliable_datagram c in_flight =
      d.lt (d.of_nat in_flight) (d.floor (d.fmax c.congestion_window_packets (d.decimal 1 0)))

module _ {F : Type 0} ⦃d : Floats F⦄ ⦃t : Seconds F⦄ where
  -- `as_secs_f64() * 1000.0`.
  abbrev millis : ℕ → F
  millis ns = d.mul (t.as_secs_f64 ns) (d.decimal 1000 0)

  unfoldable pub rto_from_rtt : Congestion F → F → ℕ
  rto_from_rtt c srtt = t.from_secs_f64 (
      d.div
        (d.clamp (d.add srtt (d.fmax (d.mul (d.decimal 4 0) c.rttvar_ms) (d.decimal 10 0)))
          (millis c.min_resend_rto) (millis c.max_resend_rto))
        (d.decimal 1000 0))

  unfoldable pub recompute_rto_from_rtt : Congestion F → Congestion F
  recompute_rto_from_rtt c = elim c.srtt_ms [
    | none ↦ c
    | some srtt ↦ record c { resend_rto = rto_from_rtt c srtt }
  ]

  -- The first sample, and the weighted mean of the samples.
  unfoldable pub smooth_rtt : Congestion F → F → Option F → Congestion F
  smooth_rtt c sample none = record c {
    srtt_ms = some sample;
    rttvar_ms = d.div sample (d.decimal 2 0);
  }
  smooth_rtt c sample (some srtt) =
      let alpha = d.decimal 125 3 in
      let beta = d.decimal 25 2 in
      let one = d.decimal 1 0 in
      record c {
        rttvar_ms =
            d.add (d.mul (d.sub one beta) c.rttvar_ms) (d.mul beta (d.abs (d.sub srtt sample)));
        srtt_ms = some (d.add (d.mul (d.sub one alpha) srtt) (d.mul alpha sample));
      }

  unfoldable pub observe_rtt_sample : Congestion F → ℕ → Congestion F
  observe_rtt_sample c sample =
      recompute_rto_from_rtt (smooth_rtt c (d.fmax (millis sample) (d.decimal 1 0)) c.srtt_ms)

  abbrev reference_rtt_ms : Congestion F → F
  reference_rtt_ms c = elim c.srtt_ms [
    | some srtt ↦ srtt
    | none ↦ d.fmax (millis c.resend_rto) (d.decimal 1 0)
  ]

  unfoldable pub compute_pacing_rate_bytes_per_sec : Congestion F → ℕ → F
  compute_pacing_rate_bytes_per_sec c mtu =
      let rtt_secs = d.div (d.fmax (reference_rtt_ms c) (d.decimal 1 0)) (d.decimal 1000 0) in
      let cwnd_bytes = d.mul (d.fmax c.congestion_window_packets (d.decimal 1 0)) (d.of_nat mtu) in
      if not c.pacing_enabled
      then d.infinity
      else d.clamp (d.mul (d.div cwnd_bytes rtt_secs) c.pacing_gain) c.pacing_min_rate_bytes_per_sec
          c.pacing_max_rate_bytes_per_sec

  unfoldable pub refresh_pacing_budget : Congestion F → ℕ → ℕ → Congestion F
  refresh_pacing_budget c mtu now =
      let elapsed = t.as_secs_f64 (now - c.last_pacing_update) in
      let rate = compute_pacing_rate_bytes_per_sec c mtu in
      let timed = record c { last_pacing_update = now; pacing_rate_bytes_per_sec = rate } in
      if not c.pacing_enabled
      then c
      else if d.lt (d.decimal 0 0) elapsed
      then record timed {
        pacing_budget_bytes =
            d.clamp (d.add c.pacing_budget_bytes (d.mul elapsed rate)) (d.decimal 0 0)
              c.pacing_budget_max_bytes;
      }
      else timed

module _ {F : Type 0} ⦃d : Floats F⦄ where
  unfoldable pub consume_pacing_budget : Congestion F → ℕ → Congestion F
  consume_pacing_budget c bytes = if not c.pacing_enabled then c else record c {
    pacing_budget_bytes = d.fmax (d.sub c.pacing_budget_bytes (d.of_nat bytes)) (d.decimal 0 0);
  }
