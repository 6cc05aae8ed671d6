-- ===== src/Protocol/Ack/RoundTrip.antt =====
-- ACK and NACK payloads on the wire: what is decoded, and how many bytes there are.
use raknet_rust.Common.{
  ℕ, ◌≤◌, ◌<◌, ◌≡◌, refl, inl, inr, List, [], ◌∷◌, ◌++◌, true, false, ◌==◌, le→ltb, lt→ltb, arith,
  Bool-cases, Option-cases, length, length-append, All, All-append, append_assoc, append-nil, ok,
  err,
}
use raknet_rust.Protocol.Errors.{ack_record_overflow}
use raknet_rust.Protocol.Constants.{max_ack_sequences}
use raknet_rust.Protocol.Buffers.{BufInts}
use raknet_rust.Protocol.Primitives.{encode_int}
use raknet_rust.Protocol.Primitives.RoundTrip.{decode_bool-encode_bool, decode_int-encode_int}
use raknet_rust.Protocol.Sequence24
use raknet_rust.Protocol.Sequence24.{Sequence24, IsSeq}
use raknet_rust.Protocol.Sequence24.Codec
use raknet_rust.Protocol.Ack.Cover.{pieces}
use raknet_rust.Protocol.Ack.{
  SequenceRange, IsRange, split_wrapping, record_count, encode_range, decode_range, AckNackPayload,
  IsPayload, total_records, encode_split, encode_ranges, decode_ranges, encode_payload,
  decode_payload,
}

-- The ranges of a payload as they go on the wire.
abbrev pub wire_ranges : List SequenceRange → List SequenceRange
wire_ranges [] = []
wire_ranges (r ∷ rs) = pieces r ++ wire_ranges rs

abbrev encode_each : List SequenceRange → List ℕ
encode_each [] = []
encode_each (r ∷ rs) = encode_range r ++ encode_each rs

pub decode_range-encode_range :
    (r : SequenceRange) (rest : List ℕ)
    → IsRange r
    → decode_range (encode_range r ++ rest) ≡ ok (r, rest)
unfolding decode_range encode_range
decode_range-encode_range r rest h = elim (Bool-cases (r.start == r.end)) [
  | inl e ↦ rw e (
      simp
        (
          append-nil,
          append_assoc,
          decode_bool-encode_bool true,
          Codec.decode-encode r.start rest h.0,
        )
        (ground arith))
  | inr e ↦ rw e (
      simp (
        append_assoc,
        decode_bool-encode_bool false,
        Codec.decode-encode r.start (Sequence24.encode r.end ++ rest) h.0,
        Codec.decode-encode r.end rest h.1,
      ))
]

decode_ranges-encode_each :
    (rs : List SequenceRange) (rest : List ℕ)
    → All IsRange rs
    → decode_ranges (length rs) (encode_each rs ++ rest) ≡ ok (rs, rest)
unfolding decode_ranges
decode_ranges-encode_each [] rest h = refl
decode_ranges-encode_each (r ∷ rs) rest h = simp (
  append_assoc,
  decode_range-encode_range r (encode_each rs ++ rest) h.0,
  decode_ranges-encode_each rs rest h.1,
)

encode_each-append :
    (xs ys : List SequenceRange) → encode_each (xs ++ ys) ≡ encode_each xs ++ encode_each ys
encode_each-append [] ys = refl
encode_each-append (x ∷ xs) ys = simp (append_assoc, encode_each-append xs ys)

encode_split_lem : (r : SequenceRange) → encode_split r ≡ encode_each (pieces r)
unfolding encode_split pieces
encode_split_lem r = elim (Option-cases (split_wrapping r)) [
  | inl e ↦ rw (e, encode_split, pieces) (simp append-nil)
  | inr ((a, b), e) ↦ rw (e, encode_split, pieces) (simp append-nil)
]

encode_ranges_lem : (rs : List SequenceRange) → encode_ranges rs ≡ encode_each (wire_ranges rs)
unfolding encode_ranges
encode_ranges_lem [] = refl
encode_ranges_lem (r ∷ rs) =
    rw (encode_each-append (pieces r) (wire_ranges rs), encode_split_lem r, encode_ranges_lem rs)

length-pieces : (r : SequenceRange) → length (pieces r) ≡ record_count r
unfolding pieces split_wrapping record_count
length-pieces r = ground arith

length-wire_ranges : (rs : List SequenceRange) → length (wire_ranges rs) ≡ total_records rs
unfolding total_records
length-wire_ranges [] = refl
length-wire_ranges (r ∷ rs) =
    omega (arith, length-append (pieces r) (wire_ranges rs), length-pieces r, length-wire_ranges rs)

pieces-IsRange : (r : SequenceRange) → IsRange r → All IsRange (pieces r)
unfolding pieces split_wrapping Sequence24.new
pieces-IsRange r h = ground arith

wire_ranges-IsRange : (rs : List SequenceRange) → All IsRange rs → All IsRange (wire_ranges rs)
wire_ranges-IsRange [] h = tt
wire_ranges-IsRange (r ∷ rs) h =
    All-append IsRange (pieces r) (wire_ranges rs) (pieces-IsRange r h.0)
      (wire_ranges-IsRange rs h.1)

decode_ranges-encode_ranges :
    (rs : List SequenceRange) (rest : List ℕ)
    → All IsRange rs
    → decode_ranges (total_records rs) (encode_ranges rs ++ rest) ≡ ok (wire_ranges rs, rest)
decode_ranges-encode_ranges rs rest h =
    rw (encode_ranges_lem rs, ← length-wire_ranges rs)
      (decode_ranges-encode_each (wire_ranges rs) rest (wire_ranges-IsRange rs h))

module _ ⦃io : BufInts⦄ where
  -- A payload with at most 8192 records on the wire is encoded; what is decoded from it has the same
  -- ranges in order, each range that wraps replaced by its two halves, and leaves what follows.
  pub decode_payload-encode_payload :
      (p : AckNackPayload) (rest : List ℕ)
      → IsPayload p
      → total_records p.ranges ≤ max_ack_sequences
      → (bytes : List ℕ) × (encode_payload p ≡ ok bytes)
        × (decode_payload (bytes ++ rest) ≡ ok (record { ranges = wire_ranges p.ranges }, rest))
  unfolding encode_payload decode_payload
  decode_payload-encode_payload p rest h bound = (
    encode_int 2 (total_records p.ranges) ++ encode_ranges p.ranges,
    rw (le→ltb max_ack_sequences (total_records p.ranges) bound),
    simp (
      append_assoc,
      decode_int-encode_int 2 (total_records p.ranges) (encode_ranges p.ranges ++ rest)
          (omega arith),
      le→ltb max_ack_sequences (total_records p.ranges) bound,
      decode_ranges-encode_ranges p.ranges rest h,
    ),
  )

  -- A payload with more records is refused with their number.
  pub encode_payload_overflow :
      (p : AckNackPayload)
      → max_ack_sequences < total_records p.ranges
      → encode_payload p ≡ err (ack_record_overflow (total_records p.ranges))
  unfolding encode_payload
  encode_payload_overflow p h = rw (lt→ltb max_ack_sequences (total_records p.ranges) h)
