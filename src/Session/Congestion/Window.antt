-- ===== src/Session/Congestion/Window.antt =====
-- The congestion window against its limits, through acknowledgements and losses.
use raknet_rust.Common.{ℕ, ◌≡◌, ◌∙◌, inl, inr, true, ltb, List, [], ◌∷◌, Bool-cases, subst, arith}
use raknet_rust.Common.Floats.{Floats, IsFloats, ◌≼◌}
use raknet_rust.Session.Congestion.{
  Congestion, on_reliable_ack, apply_loss_backoff, on_timeout, on_nack_loss,
  can_emit_new_reliable_datagram,
}

-- What the network tells: an ACK, a timeout, or a NACK, the latter at an instant.
pub data Signal : Type 0 where
  acked : Signal
  timed_out : ℕ → Signal
  refused : ℕ → Signal

module _ {F : Type 0} ⦃d : Floats F⦄ where
  -- The limits are those that `with_tunables` sets.
  pub record IsCongestion (c : Congestion F) : Type 0 where
    pub one : d.decimal 1 0 ≼ c.min_congestion_window_packets
    pub limits : c.min_congestion_window_packets ≼ c.max_congestion_window_packets
    pub low : c.min_congestion_window_packets ≼ c.congestion_window_packets
    pub high : c.congestion_window_packets ≼ c.max_congestion_window_packets
    pub on_nack :
        c.congestion_multiplicative_decrease_nack ≼ c.congestion_multiplicative_decrease_nack
    pub timeout :
        c.congestion_multiplicative_decrease_timeout ≼ c.congestion_multiplicative_decrease_timeout

  unfoldable pub react : Congestion F → Signal → Congestion F
  react c acked = on_reliable_ack c
  react c (timed_out now) = on_timeout c now
  react c (refused now) = on_nack_loss c now

  unfoldable pub react_all : Congestion F → List Signal → Congestion F
  react_all c [] = c
  react_all c (s ∷ ss) = react_all (react c s) ss

module _ {F : Type 0} ⦃d : Floats F⦄ (law : IsFloats F) where
  zero_one : d.decimal 0 0 ≼ d.decimal 1 0
  zero_one = law.le-decimal 0 1 0 (omega arith)

  window_nonneg : (c : Congestion F) → IsCongestion c → d.decimal 0 0 ≼ c.congestion_window_packets
  window_nonneg c v = law.le_trans _ _ _ zero_one (law.le_trans _ _ _ v.one v.low)

  zero_lem : d.decimal 0 3 ≡ d.decimal 0 0
  zero_lem = law.decimal-shift 0 2 ∙ law.decimal-shift 0 1 ∙ law.decimal-shift 0 0

  least_gain : (x : F) → d.decimal 0 0 ≼ d.fmax x (d.decimal 1 3)
  least_gain x =
      let start : d.decimal 0 3 ≼ d.decimal 1 3 = law.le-decimal 0 1 3 (omega arith) in
      law.le_trans _ _ _ (subst (λ z. z ≼ d.decimal 1 3) zero_lem start)
        (law.le-fmax x (d.decimal 1 3) (law.le_number _ _ start).1)

  pub on_reliable_ack-IsCongestion :
      (c : Congestion F) → IsCongestion c → IsCongestion (on_reliable_ack c)
  unfolding on_reliable_ack
  on_reliable_ack-IsCongestion c v =
      let (low, high) =
        law.le-clamp _ _ _ (law.add_number _ _ (window_nonneg c v) (least_gain _)) v.limits in
      record {
        one = v.one;
        limits = v.limits;
        low = low;
        high = high;
        on_nack = v.on_nack;
        timeout = v.timeout;
      }

  -- A factor between 0.1 and 0.99.
  factor_lem :
      (x : F)
      → x ≼ x
      → let y = d.clamp x (d.decimal 1 1) (d.decimal 99 2) in
        (d.decimal 1 1 ≼ y) × (y ≼ d.decimal 1 0)
  factor_lem x n =
      let tenth : d.decimal 1 1 ≼ d.decimal 99 2 =
        subst (λ z. z ≼ d.decimal 99 2) (law.decimal-shift 1 1)
          (law.le-decimal 10 99 2 (omega arith)) in
      let small : d.decimal 99 2 ≼ d.decimal 1 0 =
        subst (λ z. d.decimal 99 2 ≼ z) (law.decimal-shift 10 1 ∙ law.decimal-shift 1 0)
          (law.le-decimal 99 100 2 (omega arith)) in
      let (low, high) = law.le-clamp x _ _ n tenth in (low, law.le_trans _ _ _ high small)

  apply_loss_backoff-IsCongestion :
      (c : Congestion F) (x : F) → x ≼ x → IsCongestion c → IsCongestion (apply_loss_backoff c x)
  unfolding apply_loss_backoff
  apply_loss_backoff-IsCongestion c x n v =
      let (tenth, one) = factor_lem x n in
      let (low, high) =
        law.le-clamp _ _ _ (law.mul_number _ _ (window_nonneg c v) tenth one) v.limits in
      record {
        one = v.one;
        limits = v.limits;
        low = low;
        high = high;
        on_nack = v.on_nack;
        timeout = v.timeout;
      }

  pub on_timeout-IsCongestion :
      (c : Congestion F) (now : ℕ) → IsCongestion c → IsCongestion (on_timeout c now)
  unfolding on_timeout apply_loss_backoff
  on_timeout-IsCongestion c now v =
      let v' = apply_loss_backoff-IsCongestion c _ v.timeout v in
      record {
        one = v'.one;
        limits = v'.limits;
        low = v'.low;
        high = v'.high;
        on_nack = v'.on_nack;
        timeout = v'.timeout;
      }

  pub on_nack_loss-IsCongestion :
      (c : Congestion F) (now : ℕ) → IsCongestion c → IsCongestion (on_nack_loss c now)
  unfolding on_nack_loss apply_loss_backoff
  on_nack_loss-IsCongestion c now v = elim (Bool-cases (ltb now c.next_nack_loss_backoff)) [
    | inl t ↦ rw t v
    | inr f ↦
        let v' = apply_loss_backoff-IsCongestion c _ v.on_nack v in
        rw f record {
          one = v'.one;
          limits = v'.limits;
          low = v'.low;
          high = v'.high;
          on_nack = v'.on_nack;
          timeout = v'.timeout;
        }
  ]

  react-IsCongestion : (c : Congestion F) (s : Signal) → IsCongestion c → IsCongestion (react c s)
  unfolding react
  react-IsCongestion c acked v = on_reliable_ack-IsCongestion c v
  react-IsCongestion c (timed_out now) v = on_timeout-IsCongestion c now v
  react-IsCongestion c (refused now) v = on_nack_loss-IsCongestion c now v

  -- Whatever acknowledgements, timeouts and refusals come, the congestion window stays between its
  -- limits, and a session that has nothing in flight may send a reliable datagram. The lower limit is 1
  -- packet at least, and the factors of the back-off are numbers.
  pub react_all-IsCongestion :
      (c : Congestion F) (ss : List Signal)
      → IsCongestion c
      → IsCongestion (react_all c ss) × (can_emit_new_reliable_datagram (react_all c ss) 0 ≡ true)
  unfolding react_all can_emit_new_reliable_datagram
  react_all-IsCongestion c [] v = (v, law.lt-floor _ (law.le-fmax _ _ (law.le_number _ _ v.one).0))
  react_all-IsCongestion c (s ∷ ss) v =
      react_all-IsCongestion (react c s) ss (react-IsCongestion c s v)
