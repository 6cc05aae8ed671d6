-- ===== src/Session/AckFlow/Gap.antt =====
-- A datagram that is not the next one: what is asked for.
use raknet_rust.Common.{
  ℕ, zero, suc, ◌+◌, ◌≤◌, ◌<◌, ◌≡◌, refl, sym, ap, ◌∙◌, ◌↔◌, ◌⊎◌, inl, inr, true, false, ◌==◌, [],
  All, some, Bool-cases, arith,
}
use raknet_rust.Protocol.Sequence24.{IsSeq, half, next, prev, distance_to, gt}
use raknet_rust.Protocol.Sequence24.Arith.{prev-IsSeq, distance_to_self}
use raknet_rust.Session.AckFlow.{AckFlow, push_ack, ack_after, nack_gap, process_datagram_sequence}
use raknet_rust.Session.AckFlow.Chunks.{
  chunks, missing, push_all, IsAsked, IsShort, chunks_lem, push_nacks_lem,
}

-- The gap ends in front of the datagram, and it is not longer than half the circle.
pub gap_lem :
    (a b : ℕ)
    → IsSeq a
    → IsSeq b
    → gt a b ≡ false
    → (distance_to a b ≤ half) × ((b == a) ≡ false → distance_to a (prev b) + 1 ≡ distance_to a b)
unfolding gt distance_to prev
gap_lem a b ha hb g = (ground arith, λ n. ground arith)

some_gap :
    (s : AckFlow) (a seq now : ℕ)
    → IsSeq a
    → IsSeq seq
    → gt a seq ≡ false
    → (seq == a) ≡ false
    → nack_gap s a seq now ≡ some (push_ack (push_all s (missing a seq) now) seq now)
unfolding nack_gap ack_after missing
some_gap s a seq now ha hs g n =
    let (near, before) = gap_lem a seq ha hs g in
    let d = before n in
    let all =
      push_nacks_lem 1024 s a (prev seq) now ha (prev-IsSeq seq) (omega (arith, d))
        (omega (arith, d)) in
    ap (λ o. ack_after o seq now) all
    ∙ ap (λ k. some (push_ack (push_all s (chunks 1024 a k) now) seq now)) d

no_chunks : (fuel a : ℕ) → chunks fuel a 0 ≡ []
unfolding chunks
no_chunks zero a = refl
no_chunks (suc fuel) a = refl

no_gap : (a seq : ℕ) → a ≡ seq → missing a seq ≡ []
unfolding missing
no_gap a seq e =
    ap (λ b. chunks 1024 a (distance_to a b)) (sym e)
    ∙ ap (chunks 1024 a) (distance_to_self a)
    ∙ no_chunks 1024 a

-- The datagrams between the expected one and one that is not behind it are pushed to the queue in
-- ranges of at most 8192 numbers. A number lies in one of the pushed ranges exactly if it lies between;
-- what the queue makes of them is not stated.
pub process_datagram_sequence_lem :
    (s : AckFlow) (seq now i : ℕ)
    → IsSeq s.datagram_read_index
    → IsSeq seq
    → IsSeq i
    → gt s.datagram_read_index seq ≡ false
    → (process_datagram_sequence s seq now
        ≡ some (
            push_ack
              (push_all
                (record s { datagram_read_index = next seq })
                (missing s.datagram_read_index seq)
                now)
              seq
              now))
      × (IsAsked (missing s.datagram_read_index seq) i
          ↔ (distance_to s.datagram_read_index i < distance_to s.datagram_read_index seq))
      × All IsShort (missing s.datagram_read_index seq)
unfolding process_datagram_sequence missing
process_datagram_sequence_lem s seq now i hr hs hi g =
    let a = s.datagram_read_index in
    let near = (gap_lem a seq hr hs g).0 in
    let (asked, short) = chunks_lem 1024 a (distance_to a seq) i hr hi near (omega (arith, near)) in
    (whole (Bool-cases (seq == a)), asked, short)
  where
    moved : AckFlow
    moved = record s { datagram_read_index = next seq }

    whole :
        ((seq == s.datagram_read_index) ≡ true) ⊎ ((seq == s.datagram_read_index) ≡ false)
        → process_datagram_sequence s seq now
          ≡ some (push_ack (push_all moved (missing s.datagram_read_index seq) now) seq now)
    whole (inl e) =
        rw (g, e)
          (ap (λ rs. some (push_ack (push_all moved rs now) seq now))
            (sym (no_gap s.datagram_read_index seq (ground arith))))
    whole (inr n) = rw (g, n) (some_gap moved s.datagram_read_index seq now hr hs g n)

-- A datagram that is behind the one expected is acknowledged, and nothing else happens; with one that
-- is not, the loops end. Either way there is a next state, which acknowledges it last.
pub process_datagram_sequence_ends :
    (s : AckFlow) (seq now : ℕ)
    → IsSeq s.datagram_read_index
    → IsSeq seq
    → (s' : AckFlow) × (process_datagram_sequence s seq now ≡ some (push_ack s' seq now))
unfolding process_datagram_sequence
process_datagram_sequence_ends s seq now hr hs = elim (Bool-cases (gt s.datagram_read_index seq)) [
  | inl t ↦ (s, rw t refl)
  | inr f ↦ (_, (process_datagram_sequence_lem s seq now 0 hr hs (omega arith) f).0)
]
