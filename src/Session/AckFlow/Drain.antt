-- ===== src/Session/AckFlow/Drain.antt =====
-- The datagrams that carry acknowledgements.
use raknet_rust.Common.{
  ℕ, ◌+◌, ◌≤◌, ◌≡◌, refl, ap, subst, ◌⊎◌, inl, inr, List, [], ◌∷◌, ◌++◌, length, some, arith,
}
use raknet_rust.Protocol.Ack.{SequenceRange, split_size, sum_sizes, payload_size}
use raknet_rust.Protocol.Datagram.{
  Datagram, frames, ack, nack, datagram_of, payload_bytes, encoded_size,
}
use raknet_rust.Session.AckQueue.{AckQueue, wire_size, pop_for_mtu}
use raknet_rust.Session.AckQueue.Bounds.{wire_sizes, Fits, pop_for_mtu_lem}
use raknet_rust.Session.AckFlow.{AckFlow, send_acks, drain_ack_datagram}

-- The ranges that a datagram acknowledges, or asks for.
abbrev pub ranges_of : Datagram → List SequenceRange
ranges_of d = elim d.payload [ frames fs ↦ [] | ack p ↦ p.ranges | nack p ↦ p.ranges ]

sizes_agree : (rs : List SequenceRange) → sum_sizes rs ≡ wire_sizes rs
unfolding sum_sizes split_size wire_size
sizes_agree [] = refl
sizes_agree (r ∷ rs) = ap (λ n. wire_size r + n) (sizes_agree rs)

within_mtu :
    (mtu : ℕ) (r : SequenceRange) (rs : List SequenceRange)
    → Fits mtu 3 0 (r ∷ rs)
    → (3 + wire_sizes (r ∷ rs) ≤ mtu) ⊎ (rs ≡ [])
within_mtu mtu r rs (inl (z, l)) = absurd (omega (arith, l))
within_mtu mtu r [] h = inr refl
within_mtu mtu r (s ∷ rs) (inr (inl (z, l))) = absurd (omega (arith, l))
within_mtu mtu r (s ∷ rs) (inr (inr l)) = inl (omega (arith, l))

sent_lem :
    (s : AckFlow) (now : ℕ) (q : AckQueue) (ranges : List SequenceRange) (d : Datagram)
    → (send_acks s now q ranges).1 ≡ some d
    → Fits s.mtu 3 0 ranges
    → (ranges_of d ≡ ranges)
      × ((send_acks s now q ranges).0.outgoing_acks ≡ q)
      × (1 ≤ length ranges)
      × ((encoded_size d ≤ s.mtu) ⊎ (length ranges ≡ 1))
unfolding send_acks encoded_size payload_bytes payload_size
sent_lem s now q [] d e fits = cc
sent_lem s now q (r ∷ rs) d e fits =
    let same : datagram_of 0xC0 0 (ack record { ranges = r ∷ rs }) ≡ d = cc in
    let size = sizes_agree (r ∷ rs) in
    subst
      (λ d.
        (ranges_of d ≡ r ∷ rs)
        × (q ≡ q)
        × (1 ≤ length (r ∷ rs))
        × ((encoded_size d ≤ s.mtu) ⊎ (length (r ∷ rs) ≡ 1)))
      same
      (
        refl,
        refl,
        omega arith,
        elim (within_mtu s.mtu r rs fits) [
          | inl l ↦ inl (omega (arith, l, size))
          | inr z ↦ inr (ap (λ t. length (r ∷ t)) z)
        ],
      )

-- A datagram of acknowledgements takes ranges from the front of the queue and leaves the others in
-- it, in their order; it has a range at least, no more ranges than allowed, and it fits the MTU unless
-- it has only one.
pub drain_ack_datagram_lem :
    (s : AckFlow) (now : ℕ) (d : Datagram)
    → (drain_ack_datagram s now).1 ≡ some d
    → (ranges_of d ++ (drain_ack_datagram s now).0.outgoing_acks.queue ≡ s.outgoing_acks.queue)
      × (1 ≤ length (ranges_of d))
      × (length (ranges_of d) ≤ s.ack_max_ranges_per_datagram)
      × ((encoded_size d ≤ s.mtu) ⊎ (length (ranges_of d) ≡ 1))
unfolding drain_ack_datagram
drain_ack_datagram_lem s now d e =
    let (q, ranges) = pop_for_mtu s.outgoing_acks s.mtu 3 s.ack_max_ranges_per_datagram in
    let (whole, few, fits, stops) =
      pop_for_mtu_lem s.outgoing_acks s.mtu 3 s.ack_max_ranges_per_datagram in
    let (taken, kept, one, size) = sent_lem s now q ranges d e fits in
    rw (taken, kept) (whole, one, few, size)
