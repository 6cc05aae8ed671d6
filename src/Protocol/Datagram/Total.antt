-- ===== src/Protocol/Datagram/Total.antt =====
-- The rounds of the decoder's loop on any input.
use raknet_rust.Common.{
  ℕ, ◌≢◌, inl, inr, List, [], ◌∷◌, length, All, IsByte, none, Result-cases, Option-cases, Post_elim,
  arith,
}
use raknet_rust.Protocol.Buffers.{BufInts}
use raknet_rust.Protocol.Sequence24
use raknet_rust.Protocol.Frame.Parse.{sequence-Post}
use raknet_rust.Protocol.Datagram.Loop.{decode_frames-ne-none}
use raknet_rust.Protocol.Datagram.{
  DatagramFlags, DatagramKind, data_kind, ack_kind, nack_kind, decode_datagram_flags, decode_frames,
  decode_frames_from, decode_as, decode,
}

module _ ⦃io : BufInts⦄ where
  from-ne-none :
      (flags seq : ℕ) (src : List ℕ) → All IsByte src → decode_frames_from flags seq src ≢ none
  unfolding decode_frames_from
  from-ne-none flags seq src h = elim (Option-cases (decode_frames (length src) src [])) [
    | inl e ↦ absurd (decode_frames-ne-none (length src) src [] h (omega arith) e)
    | inr (r, e) ↦ rw (e, decode_frames_from) (λ p. cc)
  ]

  as-ne-none :
      (flags : ℕ) (k : DatagramKind) (src : List ℕ) → All IsByte src → decode_as flags k src ≢ none
  unfolding decode_as
  as-ne-none flags ack_kind src h = λ e. cc
  as-ne-none flags nack_kind src h = λ e. cc
  as-ne-none flags data_kind src h = elim (Result-cases (Sequence24.decode src)) [
    | inl ((seq, rest), e) ↦
        rw (e, decode_as) (from-ne-none flags seq rest (Post_elim (sequence-Post src h) e).1.0)
    | inr (x, e) ↦ rw (e, decode_as) (λ p. cc)
  ]

  -- The decoder returns a datagram or an error on every list of bytes: its loop does not run out of
  -- rounds.
  pub decode_datagram-ne-none :
      ⦃bits : DatagramFlags⦄ (src : List ℕ) → All IsByte src → decode src ≢ none
  unfolding decode
  decode_datagram-ne-none [] h = λ e. cc
  decode_datagram-ne-none (raw ∷ src) h = elim (Result-cases (decode_datagram_flags raw)) [
    | inl ((flags, k), e) ↦ rw (e, decode) (as-ne-none flags k src h.1)
    | inr (x, e) ↦ rw (e, decode) (λ p. cc)
  ]
