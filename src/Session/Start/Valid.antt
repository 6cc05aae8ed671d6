-- ===== src/Session/Start/Valid.antt =====
-- A session that is made from valid settings.
use Prim.Native.String.{String}
use raknet_rust.Common.{
  ℕ, ◌≤◌, ◌<◌, ◌≡◌, refl, subst, min, max, Bool, true, false, ltb, All, [], some, ok, err, ◌>>◌,
  fail_if, arith,
}
use raknet_rust.Common.Int.{max_u64}
use raknet_rust.Common.Map.{lookup}
use raknet_rust.Common.Floats.{Floats, IsFloats, ◌≼◌}
use raknet_rust.Protocol.Errors.{ConfigValidationError}
use raknet_rust.Session.ReliableTracker
use raknet_rust.Session.AckQueue.{new_queue}
use raknet_rust.Session.SplitAssembler
use raknet_rust.Session.SplitAssembler.Invariant.{new-IsAssembler}
use raknet_rust.Session.OrderingChannels.History.{new-AreChannels}
use raknet_rust.Session.Receive.Invariant.{IsReceiver}
use raknet_rust.Session.Send.Limits.{IsSender}
use raknet_rust.Session.Congestion.Window.{IsCongestion}
use raknet_rust.Session.Sent.Progress.{in_flight, IsSent}
use raknet_rust.Session.Retransmit.Limits.{IsTable}
use raknet_rust.Session.Dispatch.Whole.{IsQueued}
use raknet_rust.Session.Tick.{Session}
use raknet_rust.Session.Tunables.{
  SessionTunables, CongestionSettings, resolved_congestion_settings,
  resolved_ack_nack_flush_settings,
}
use raknet_rust.Session.Tunables.Checks.{
  Checked, check_flush, check_limits, check_rto, check_window, check_reaction, validate,
  validate_positive_f64, validate_fraction,
}
use raknet_rust.Session.Start.{
  new_flow, new_receiver, new_sender, clamp_f64, clamp_duration, min_cwnd, max_cwnd, new_congestion,
  new_sent, with_congestion_state, with_tunables,
}

-- What a check that is passed says.
then_ok : (m k : Checked) → (m >> k) ≡ ok tt → (m ≡ ok tt) × (k ≡ ok tt)
then_ok (ok u) k e = (refl, e)
then_ok (err x) k e = cc

passed : (b : Bool) (e : ConfigValidationError) → (fail_if b e) ≡ ok tt → b ≡ false
passed true e p = cc
passed false e p = refl

module _ {F : Type 0} ⦃d : Floats F⦄ where
  -- All parts of a session are as they should be, with this MTU, and nothing waits in them.
  pub record IsSession (mtu : ℕ) (s : Session F) : Type 0 where
    pub flow_mtu : s.receiver.flow.mtu ≡ mtu
    pub sender_mtu : s.sender.mtu ≡ mtu
    pub acks : s.receiver.incoming_acks ≡ []
    pub nacks : s.receiver.incoming_nacks ≡ []
    pub receiver : IsReceiver s.receiver
    pub sender : IsSender s.sender
    pub queued : All IsQueued s.sender.outgoing_heap
    pub congestion : IsCongestion s.sent.congestion
    pub receipts : IsSent s.sent
    pub table : IsTable s.sent.sent_datagrams

  -- What the checks of the settings of the congestion are used for.
  record IsSettings (c : CongestionSettings F) : Type 0 where
    rto : c.min_resend_rto ≤ c.max_resend_rto
    initial : d.is_finite c.initial_congestion_window ≡ true
    least : d.is_finite c.min_congestion_window ≡ true
    most : d.is_finite c.max_congestion_window ≡ true
    nack : d.is_finite c.congestion_multiplicative_decrease_nack ≡ true
    timeout : d.is_finite c.congestion_multiplicative_decrease_timeout ≡ true

  positive_finite :
      (x : F) (field : String) → validate_positive_f64 x field ≡ ok tt → d.is_finite x ≡ true
  positive_finite x field e = let no = passed _ _ e in ground arith

  fraction_finite :
      (x : F) (field : String) → validate_fraction x field ≡ ok tt → d.is_finite x ≡ true
  fraction_finite x field e = let no = passed _ _ e in ground arith

  validate-IsSettings :
      (t : SessionTunables F) → validate t ≡ ok tt → IsSettings (resolved_congestion_settings t)
  unfolding validate check_rto check_window check_reaction
  validate-IsSettings t e =
      let c = resolved_congestion_settings t in
      let (_, e1) = then_ok (check_flush (resolved_ack_nack_flush_settings t)) _ e in
      let (_, e2) = then_ok (check_limits t) _ e1 in
      let (rto, e3) = then_ok (check_rto c) _ e2 in
      let (window, e4) = then_ok (check_window c) _ e3 in
      let (reaction, _) = then_ok (check_reaction c) _ e4 in
      let (_, r1) = then_ok _ _ rto in
      let (_, r2) = then_ok _ _ r1 in
      let (ordered, _) = then_ok _ _ r2 in
      let (w0, r3) = then_ok _ _ window in
      let (w1, r4) = then_ok _ _ r3 in
      let (w2, _) = then_ok _ _ r4 in
      let (_, r5) = then_ok _ _ reaction in
      let (w3, r6) = then_ok _ _ r5 in
      let (w4, _) = then_ok _ _ r6 in
      let in_order : ltb c.max_resend_rto c.min_resend_rto ≡ false = passed _ _ ordered in
      record {
        rto = ground arith;
        initial = positive_finite _ _ w0;
        least = positive_finite _ _ w1;
        most = positive_finite _ _ w2;
        nack = fraction_finite _ _ w3;
        timeout = fraction_finite _ _ w4;
      }

module _ {F : Type 0} ⦃d : Floats F⦄ (law : IsFloats F) where
  one_number : d.decimal 1 0 ≼ d.decimal 1 0
  one_number = (law.le_number _ _ (law.le-decimal 1 2 0 (omega arith))).0

  limits_lem : (c : CongestionSettings F) → min_cwnd c ≼ max_cwnd c
  limits_lem c =
      law.le-fmax _ _ (law.le_number _ _ (law.le-fmax c.min_congestion_window _ one_number)).1

  clamp_lem :
      (x : F)
      → x ≼ x
      → d.clamp x (d.decimal 1 1) (d.decimal 99 2) ≼ d.clamp x (d.decimal 1 1) (d.decimal 99 2)
  clamp_lem x n =
      let tenth : d.decimal 1 1 ≼ d.decimal 99 2 =
        subst (λ z. z ≼ d.decimal 99 2) (law.decimal-shift 1 1)
          (law.le-decimal 10 99 2 (omega arith)) in
      (law.le_number _ _ (law.le-clamp x _ _ n tenth).0).1

  new_congestion-IsCongestion :
      (t : SessionTunables F) (c : CongestionSettings F) (now rto : ℕ) (threshold : F)
      → IsSettings c
      → IsCongestion (
          new_congestion t c now rto
            (d.clamp c.initial_congestion_window (min_cwnd c) (max_cwnd c))
            threshold)
  unfolding new_congestion
  new_congestion-IsCongestion t c now rto threshold v =
      let one = law.le-fmax c.min_congestion_window (d.decimal 1 0) one_number in
      let limits = limits_lem c in
      let (low, high) =
        law.le-clamp c.initial_congestion_window _ _ (law.finite_number _ v.initial) limits in
      record {
        one = one;
        limits = limits;
        low = law.le_trans _ _ _ low (law.fmax-le _ _ (law.le_number _ _ low).1);
        high = law.fmax-le_both _ _ _ high (law.le_trans _ _ _ one limits);
        on_nack = clamp_lem _ (law.finite_number _ v.nack);
        timeout = clamp_lem _ (law.finite_number _ v.timeout);
      }

  -- A session can be made from all settings that are valid: no call of `clamp` panics, and all its parts
  -- are as they should be, which is what the theorems on receiving, queueing and sending start from; it
  -- has the given MTU, and nothing waits to be processed. The limits of the queue are below 2 ^ 64 - 1.
  pub with_tunables-IsSession :
      (mtu : ℕ) (t : SessionTunables F) (now : ℕ)
      → validate t ≡ ok tt
      → t.outgoing_queue_max_frames < max_u64
      → t.outgoing_queue_max_bytes < max_u64
      → (s : Session F) × (with_tunables mtu t now ≡ some s) × IsSession mtu s
  unfolding with_tunables with_congestion_state new_receiver new_flow new_sender new_sent new_queue
      ReliableTracker.new in_flight lookup
  with_tunables-IsSession mtu t now e frames bytes =
      let c = resolved_congestion_settings t in
      let v = validate-IsSettings t e in
      let limits : d.le (min_cwnd c) (max_cwnd c) ≡ true = limits_lem c in
      let rto : ltb c.max_resend_rto c.min_resend_rto ≡ false = ground (arith, v.rto) in
      let clamped : (x : F)
          → clamp_f64 x (min_cwnd c) (max_cwnd c) ≡ some (d.clamp x (min_cwnd c) (max_cwnd c)) =
        λ x. rw limits refl in
      let held : clamp_duration c.resend_rto c.min_resend_rto c.max_resend_rto
          ≡ some (min (max c.resend_rto c.min_resend_rto) c.max_resend_rto) =
        rw rto refl in
      (
        with_congestion_state t mtu now (
            new_congestion t c now (min (max c.resend_rto c.min_resend_rto) c.max_resend_rto)
              (d.clamp c.initial_congestion_window (min_cwnd c) (max_cwnd c))
              (d.clamp c.congestion_slow_start_threshold (min_cwnd c) (max_cwnd c))),
        rw
            (
              with_tunables,
              clamped c.initial_congestion_window,
              clamped c.congestion_slow_start_threshold,
              held,
            )
            refl,
        record {
          flow_mtu = refl;
          sender_mtu = refl;
          acks = refl;
          nacks = refl;
          receiver = record {
            flow = record { read = omega arith; acks = omega arith; nacks = omega arith };
            tracker = omega arith;
            assembler = new-IsAssembler t.split_ttl t.max_split_parts t.max_concurrent_splits;
            indices = unfold SplitAssembler.new in tt;
            channels =
                new-AreChannels t.max_ordering_channels t.max_ordered_pending_per_channel
                  t.max_order_gap;
          };
          sender = record {
            some_frames = ground arith;
            some_bytes = ground arith;
            frame_limit = ground arith;
            byte_limit = ground arith;
            frames = omega arith;
            bytes = omega arith;
            accounted = refl;
          };
          queued = tt;
          congestion = new_congestion-IsCongestion t c now _ _ v;
          receipts = record { order = tt; count = λ id. refl };
          table = tt;
        },
      )
