-- ===== src/Session/Run/Window.antt =====
-- The congestion window of a session, through acknowledgements, retransmission and pacing.
use raknet_rust.Common.{
  ◌-◌, [], Option-cases, ℕ, ◌≡◌, refl, sym, subst, inl, inr, Bool-cases, not, ltb, ◌==◌, ◌&&◌,
  if◌then◌else◌, Bool, true, false, List, Option, none, some, All,
}
use raknet_rust.Common.Floats.{Floats, IsFloats, ◌≼◌}
use raknet_rust.Common.Map.{lookup}
use raknet_rust.Protocol.Sequence24.{Sequence24}
use raknet_rust.Protocol.Ack.{SequenceRange}
use raknet_rust.Session.Congestion.{
  Congestion, Seconds, on_reliable_ack, rto_from_rtt, recompute_rto_from_rtt, smooth_rtt,
  observe_rtt_sample, refresh_pacing_budget, consume_pacing_budget,
}
use raknet_rust.Session.Congestion.Window.{
  IsCongestion, on_reliable_ack-IsCongestion, on_timeout-IsCongestion, on_nack_loss-IsCongestion,
}
use raknet_rust.Session.Sent.{
  TrackedDatagram, ReceiptProgress, Sent, observe_ack, ack_tracked, ack_sequence, nack_tracked,
  nack_sequence, no_progress, count_acked, count_nacked, process_nacks, process_receipts, is_empty,
}
use raknet_rust.Session.Retransmit.{select_due, resend, collect_resendable}
use raknet_rust.Session.Sent.Progress.{IsRange, for_each_range-keeps}

module _ {F : Type 0} ⦃d : Floats F⦄ where
  -- The window and its limits are the same.
  same_window :
      (c c' : Congestion F)
      → c'.congestion_window_packets ≡ c.congestion_window_packets
      → c'.min_congestion_window_packets ≡ c.min_congestion_window_packets
      → c'.max_congestion_window_packets ≡ c.max_congestion_window_packets
      → c'.congestion_multiplicative_decrease_nack ≡ c.congestion_multiplicative_decrease_nack
      → c'.congestion_multiplicative_decrease_timeout ≡ c.congestion_multiplicative_decrease_timeout
      → IsCongestion c
      → IsCongestion c'
  same_window c c' window least most on_nack timeout v = record {
    one = subst (λ x. d.decimal 1 0 ≼ x) (sym least) v.one;
    limits = rw (least, most) v.limits;
    low = rw (least, window) v.low;
    high = rw (window, most) v.high;
    on_nack = rw on_nack v.on_nack;
    timeout = rw timeout v.timeout;
  }

  either_way :
      (b : Bool) (x y : Congestion F)
      → IsCongestion x
      → IsCongestion y
      → IsCongestion (if b then x else y)
  either_way true x y v w = v
  either_way false x y v w = w

  pub consume_pacing_budget-IsCongestion :
      (c : Congestion F) (bytes : ℕ) → IsCongestion c → IsCongestion (consume_pacing_budget c bytes)
  unfolding consume_pacing_budget
  consume_pacing_budget-IsCongestion c bytes v =
      either_way (not c.pacing_enabled) _ _ v (same_window c _ refl refl refl refl refl v)

  module _ ⦃t : Seconds F⦄ where
    pub refresh_pacing_budget-IsCongestion :
        (c : Congestion F) (mtu now : ℕ)
        → IsCongestion c
        → IsCongestion (refresh_pacing_budget c mtu now)
    unfolding refresh_pacing_budget
    refresh_pacing_budget-IsCongestion c mtu now v = either_way (not c.pacing_enabled) _ _ v (
        either_way (d.lt (d.decimal 0 0) (t.as_secs_f64 (now - c.last_pacing_update))) _ _
          (same_window c _ refl refl refl refl refl v) (same_window c _ refl refl refl refl refl v))

    smooth_rtt-IsCongestion :
        (c : Congestion F) (sample : F) (srtt : Option F)
        → IsCongestion c
        → IsCongestion (smooth_rtt c sample srtt)
    unfolding smooth_rtt
    smooth_rtt-IsCongestion c sample none v = same_window c _ refl refl refl refl refl v
    smooth_rtt-IsCongestion c sample (some srtt) v = same_window c _ refl refl refl refl refl v

    recompute_rto-IsCongestion :
        (c : Congestion F) → IsCongestion c → IsCongestion (recompute_rto_from_rtt c)
    unfolding recompute_rto_from_rtt
    recompute_rto-IsCongestion c v = after c.srtt_ms
      where
        after :
            (srtt : Option F)
            → IsCongestion
                (elim srtt [ none ↦ c | some x ↦ record c { resend_rto = rto_from_rtt c x } ])
        after none = v
        after (some srtt) = same_window c _ refl refl refl refl refl v

module _ {F : Type 0} ⦃d : Floats F⦄ ⦃t : Seconds F⦄ (law : IsFloats F) where
  observe_ack-IsCongestion :
      (c : Congestion F) (acked : TrackedDatagram) (now : ℕ)
      → IsCongestion c
      → IsCongestion (observe_ack c acked now)
  unfolding observe_ack observe_rtt_sample
  observe_ack-IsCongestion c acked now v =
      let raised = on_reliable_ack-IsCongestion law c v in
      elim (Bool-cases (acked.retries == 0)) [
        | inl z ↦
            rw z (
              recompute_rto-IsCongestion _ (smooth_rtt-IsCongestion (on_reliable_ack c) _ _ raised))
        | inr n ↦ rw n raised
      ]

  ack_sequence-IsCongestion :
      (now : ℕ) (r : Sent F × ReceiptProgress) (seq : Sequence24)
      → IsCongestion r.0.congestion
      → IsCongestion (ack_sequence now r seq).0.congestion
  unfolding ack_sequence ack_tracked
  ack_sequence-IsCongestion now r seq v = elim (Option-cases (lookup seq r.0.sent_datagrams)) [
    | inl e ↦ rw e v
    | inr (acked, e) ↦ rw e (observe_ack-IsCongestion r.0.congestion acked now v)
  ]

  nack_sequence-IsCongestion :
      (now : ℕ) (r : Sent F × ReceiptProgress) (seq : Sequence24)
      → IsCongestion r.0.congestion
      → IsCongestion (nack_sequence now r seq).0.congestion
  unfolding nack_sequence nack_tracked
  nack_sequence-IsCongestion now r seq v = elim (Option-cases (lookup seq r.0.sent_datagrams)) [
    | inl e ↦ rw e v
    | inr (entry, e) ↦ elim (Bool-cases (entry.resendable && ltb now entry.next_send)) [
      | inl late ↦ rw (e, late) v
      | inr early ↦ rw (e, early) v
    ]
  ]

  count_nacked-IsCongestion :
      (s : Sent F) (nacked now : ℕ)
      → IsCongestion s.congestion
      → IsCongestion (count_nacked s nacked now).congestion
  unfolding count_nacked
  count_nacked-IsCongestion s nacked now v = elim (Bool-cases (ltb 0 nacked)) [
    | inl some_lost ↦ rw some_lost (on_nack_loss-IsCongestion law s.congestion now v)
    | inr f ↦ rw f v
  ]

  -- The loops over the acknowledgements and refusals end, and the window stays between its limits.
  pub process_receipts-IsCongestion :
      (s : Sent F) (acks nacks : List SequenceRange) (now : ℕ)
      → All IsRange acks
      → All IsRange nacks
      → IsCongestion s.congestion
      → (r : Sent F × ReceiptProgress) × (process_receipts s acks nacks now ≡ some r)
        × IsCongestion r.0.congestion
  unfolding process_receipts process_nacks count_acked
  process_receipts-IsCongestion s acks nacks now ha hn v =
      let (r, e, w) =
        for_each_range-keeps (λ r. IsCongestion r.0.congestion) (ack_sequence now) (s, no_progress)
          acks (λ r seq u. ack_sequence-IsCongestion now r seq u) ha v in
      let (r', e', w') =
        for_each_range-keeps (λ r. IsCongestion r.0.congestion) (nack_sequence now)
          (count_acked r.0 r.1.acked, r.1) nacks (λ r seq u. nack_sequence-IsCongestion now r seq u)
          hn w in
      (
        (count_nacked r'.0 r'.1.nacked now, r'.1),
        rw (process_receipts, e, process_nacks, e') refl,
        count_nacked-IsCongestion r'.0 r'.1.nacked now w',
      )

  pub collect_resendable-IsCongestion :
      (s : Sent F) (now max_count max_bytes : ℕ)
      → IsCongestion s.congestion
      → IsCongestion (collect_resendable s now max_count max_bytes).0.congestion
  unfolding collect_resendable resend
  collect_resendable-IsCongestion s now max_count max_bytes v =
      let (selected, timeout) = select_due now max_count max_bytes s.sent_datagrams 0 [] false in
      elim (Bool-cases (is_empty selected)) [
        | inl e ↦ rw e v
        | inr n ↦ elim (Bool-cases timeout) [
          | inl late ↦ rw (n, late) (on_timeout-IsCongestion law s.congestion now v)
          | inr f ↦ rw (n, f) v
        ]
      ]
