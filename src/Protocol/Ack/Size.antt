-- ===== src/Protocol/Ack/Size.antt =====
-- The announced size of a payload against the bytes that are written.
use raknet_rust.Common.{
  ℕ, ◌≡◌, refl, inl, inr, List, [], ◌∷◌, ◌==◌, arith, Bool-cases, Option-cases, length,
  length-append, ok,
}
use raknet_rust.Protocol.Buffers.{BufInts}
use raknet_rust.Protocol.Primitives.{encode_bool, encode_int}
use raknet_rust.Protocol.Primitives.RoundTrip.{length-encode_int}
use raknet_rust.Protocol.Sequence24
use raknet_rust.Protocol.Sequence24.Codec
use raknet_rust.Protocol.Ack.{
  SequenceRange, split_wrapping, encoded_size, encode_range, AckNackPayload, split_size, sum_sizes,
  payload_size, total_records, encode_split, encode_ranges, encode_payload,
}

length-encode_range : (r : SequenceRange) → length (encode_range r) ≡ encoded_size r
unfolding encode_range encoded_size encode_bool
length-encode_range r = elim (Bool-cases (r.start == r.end)) [
  | inl e ↦
      rw e
        (omega (arith, length-append (Sequence24.encode r.start) [], Codec.length-encode r.start))
  | inr e ↦ rw e (
      omega (
        arith,
        length-append (Sequence24.encode r.start) (Sequence24.encode r.end),
        Codec.length-encode r.start,
        Codec.length-encode r.end,
      ))
]

length-encode_split : (r : SequenceRange) → length (encode_split r) ≡ split_size r
unfolding encode_split split_size
length-encode_split r = elim (Option-cases (split_wrapping r)) [
  | inl e ↦ rw (e, encode_split, split_size) (length-encode_range r)
  | inr ((a, b), e) ↦
      rw (e, encode_split, split_size)
        (omega (
          arith,
          length-append (encode_range a) (encode_range b),
          length-encode_range a,
          length-encode_range b,
        ))
]

length-encode_ranges : (rs : List SequenceRange) → length (encode_ranges rs) ≡ sum_sizes rs
unfolding encode_ranges sum_sizes
length-encode_ranges [] = refl
length-encode_ranges (r ∷ rs) = omega (
  arith,
  length-append (encode_split r) (encode_ranges rs),
  length-encode_split r,
  length-encode_ranges rs,
)

-- Every payload that is encoded takes as many bytes as `encoded_size` says.
pub length-encode_payload :
    ⦃io : BufInts⦄ (p : AckNackPayload) (bytes : List ℕ)
    → encode_payload p ≡ ok bytes
    → length bytes ≡ payload_size p
unfolding encode_payload payload_size
length-encode_payload p bytes e = ground (
  arith,
  length-append (encode_int 2 (total_records p.ranges)) (encode_ranges p.ranges),
  length-encode_ranges p.ranges,
  length-encode_int 2 (total_records p.ranges),
)
