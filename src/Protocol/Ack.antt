-- ===== src/Protocol/Ack.antt =====
-- src/protocol/ack.rs: ranges of sequence numbers, and the payload of an ACK or NACK datagram.
pub mod Cover
pub mod RoundTrip
pub mod Size
mod Tests
use raknet_rust.Common.{
  ℕ, zero, suc, ◌+◌, ◌<◌, ◌≡◌, Bool, true, false, not, ◌&&◌, ◌==◌, ltb, if◌then◌else◌, List, [],
  ◌∷◌, ◌++◌, Option, none, some, Result, ok, err, ◌>>=◌, ◌>>◌, fail_if, All,
}
use raknet_rust.Protocol.Errors.{
  EncodeError, ack_record_overflow, DecodeError, invalid_ack_range_count,
}
use raknet_rust.Protocol.Constants.{max_ack_sequences}
use raknet_rust.Protocol.Buffers.{BufInts}
use raknet_rust.Protocol.Primitives.{Decoded, encode_bool, decode_bool, encode_int, decode_int}
use raknet_rust.Protocol.Sequence24
use raknet_rust.Protocol.Sequence24.{Sequence24, IsSeq}

pub record SequenceRange : Type 0 where
  pub start : Sequence24
  pub end : Sequence24

abbrev pub range_of : Sequence24 → Sequence24 → SequenceRange
range_of a b = record { start = a; end = b }

unfoldable pub wraps : SequenceRange → Bool
wraps r = not (r.start == r.end) && ltb (Sequence24.value r.end) (Sequence24.value r.start)

unfoldable pub split_wrapping : SequenceRange → Option (SequenceRange × SequenceRange)
unfolding wraps
split_wrapping r =
    if not (wraps r)
    then none
    else some (range_of r.start (Sequence24.new 0x00FF_FFFF), range_of (Sequence24.new 0) r.end)

unfoldable pub record_count : SequenceRange → ℕ
unfolding wraps
record_count r = if wraps r then 2 else 1

unfoldable pub encoded_size : SequenceRange → ℕ
encoded_size r = if r.start == r.end then 1 + 3 else 1 + 3 + 3

unfoldable pub encode_range : SequenceRange → List ℕ
encode_range r =
    let singleton = r.start == r.end in
    encode_bool singleton
    ++ (Sequence24.encode r.start ++ (if singleton then [] else Sequence24.encode r.end))

unfoldable pub decode_range : List ℕ → Decoded SequenceRange
decode_range src = do
  (singleton, src) ← decode_bool src
  (start, src) ← Sequence24.decode src
  (end, src) ← if singleton then ok (start, src) else Sequence24.decode src
  ok (range_of start end, src)

pub record AckNackPayload : Type 0 where
  pub ranges : List SequenceRange

-- The size of what `encode_split` writes for one range.
unfoldable pub split_size : SequenceRange → ℕ
split_size r = elim (split_wrapping r) [
  | some (a, b) ↦ encoded_size a + encoded_size b
  | none ↦ encoded_size r
]

unfoldable pub sum_sizes : List SequenceRange → ℕ
sum_sizes [] = 0
sum_sizes (r ∷ rs) = split_size r + sum_sizes rs

unfoldable pub payload_size : AckNackPayload → ℕ
unfolding sum_sizes
payload_size p = 2 + sum_sizes p.ranges

unfoldable pub total_records : List SequenceRange → ℕ
total_records [] = 0
total_records (r ∷ rs) = record_count r + total_records rs

-- A range that wraps is written as its two halves.
encode_split : SequenceRange → List ℕ
encode_split r = elim (split_wrapping r) [
  | some (left, right) ↦ encode_range left ++ encode_range right
  | none ↦ encode_range r
]

encode_ranges : List SequenceRange → List ℕ
unfolding encode_split
encode_ranges [] = []
encode_ranges (r ∷ rs) = encode_split r ++ encode_ranges rs

decode_ranges : ℕ → List ℕ → Decoded (List SequenceRange)
decode_ranges zero src = ok ([], src)
decode_ranges (suc n) src = do
  (r, src) ← decode_range src
  (rs, src) ← decode_ranges n src
  ok (r ∷ rs, src)

module _ ⦃io : BufInts⦄ where
  -- The count is at most 8192 where it is written, so `as u16` keeps it.
  unfoldable pub encode_payload : AckNackPayload → Result EncodeError (List ℕ)
  unfolding encode_ranges
  encode_payload p = do
    let count = total_records p.ranges
    fail_if (ltb max_ack_sequences count) (ack_record_overflow count)
    ok (encode_int 2 count ++ encode_ranges p.ranges)

  unfoldable pub decode_payload : List ℕ → Decoded AckNackPayload
  unfolding decode_ranges
  decode_payload src = do
    (count, src) ← decode_int 2 src
    fail_if (ltb max_ack_sequences count) (invalid_ack_range_count count)
    (ranges, src) ← decode_ranges count src
    ok (record { ranges = ranges }, src)

-- Both ends are sequence numbers, in every range.
abbrev pub IsRange : SequenceRange → Type 0
IsRange r = IsSeq r.start × IsSeq r.end

abbrev pub IsPayload : AckNackPayload → Type 0
IsPayload p = All IsRange p.ranges
