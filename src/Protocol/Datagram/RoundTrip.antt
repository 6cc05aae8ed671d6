-- ===== src/Protocol/Datagram/RoundTrip.antt =====
-- A datagram on the wire, and what its receiver sees.
use Prim.Native.Nat.{bit_and}
use raknet_rust.Common.{
  ℕ, ◌≤◌, ◌<◌, ◌≡◌, List, [], ◌∷◌, ◌++◌, length, append-nil, All, some, ok, arith,
}
use raknet_rust.Protocol.Constants.{max_ack_sequences}
use raknet_rust.Protocol.Buffers.{BufInts}
use raknet_rust.Protocol.Primitives.{encode_u8}
use raknet_rust.Protocol.Sequence24
use raknet_rust.Protocol.Sequence24.{IsSeq}
use raknet_rust.Protocol.Sequence24.Codec
use raknet_rust.Protocol.Ack.{IsPayload, total_records}
use raknet_rust.Protocol.Ack.RoundTrip.{wire_ranges, decode_payload-encode_payload}
use raknet_rust.Protocol.Frame.RoundTrip.{IsFrame}
use raknet_rust.Protocol.Datagram.Loop.{decode_frames-encode_frames}
use raknet_rust.Protocol.Datagram.{
  DatagramFlags, DatagramKind, DatagramPayload, frames, ack, nack, kind, Datagram, flags_kind,
  decode_datagram_flags, validate_flags_for_payload, encode_body, encode, datagram_of,
  decode_frames_from, decode_as, decode,
}

-- The low two bits are no flags, and the flags announce the kind of the payload.
abbrev pub HasFlags : ℕ → DatagramKind → Type 0
HasFlags flags k = (flags < 256) × (bit_and flags 0x03 ≡ 0) × (flags_kind flags ≡ ok k)

abbrev pub IsBody : DatagramPayload → Type 0
IsBody (frames fs) = All IsFrame fs
IsBody (ack p) = IsPayload p × (total_records p.ranges ≤ max_ack_sequences)
IsBody (nack p) = IsPayload p × (total_records p.ranges ≤ max_ack_sequences)

-- What the receiver of a datagram sees: an ACK or NACK has no sequence number on the wire.
abbrev pub received : Datagram → Datagram
received d = elim d.payload [
  | frames fs ↦ d
  | ack p ↦
      datagram_of d.header.flags (Sequence24.new 0) (ack (record { ranges = wire_ranges p.ranges }))
  | nack p ↦
      datagram_of d.header.flags (Sequence24.new 0)
        (nack (record { ranges = wire_ranges p.ranges }))
]

validates :
    (flags : ℕ) (p : DatagramPayload)
    → flags_kind flags ≡ ok (kind p)
    → validate_flags_for_payload flags p ≡ ok tt
unfolding validate_flags_for_payload
validates flags (frames fs) e = rw e
validates flags (ack p) e = rw e
validates flags (nack p) e = rw e

module _ ⦃io : BufInts⦄ ⦃bits : DatagramFlags⦄ where
  flags_lem :
      (flags : ℕ) (k : DatagramKind)
      → HasFlags flags k
      → decode_datagram_flags flags ≡ ok (flags, k)
  unfolding decode_datagram_flags
  flags_lem flags k h = rw (h.2, bits.truncate_known flags h.0 h.1)

  body_lem :
      (flags seq : ℕ) (p : DatagramPayload)
      → HasFlags flags (kind p)
      → IsSeq seq
      → IsBody p
      → (bytes : List ℕ) × (encode_body (record { flags = flags; sequence = seq }) p
          ≡ ok (flags ∷ bytes))
        × (decode_as flags (kind p) bytes ≡ some (ok (received (datagram_of flags seq p), [])))
  unfolding encode_body encode_u8 decode_as
  body_lem flags seq (frames fs) h s v =
      let (bytes, e, d) = decode_frames-encode_frames fs v in
      (
        Sequence24.encode seq ++ bytes,
        rw e,
        rw (Codec.decode-encode seq bytes s, decode_as)
            (rw (d (length bytes) [] (omega arith), decode_frames_from)),
      )
  body_lem flags seq (ack p) h s v =
      let (bytes, e, d) = decode_payload-encode_payload p [] v.0 v.1 in
      (bytes, rw e, rw (rw append-nil at d))
  body_lem flags seq (nack p) h s v =
      let (bytes, e, d) = decode_payload-encode_payload p [] v.0 v.1 in
      (bytes, rw e, rw (rw append-nil at d))

  -- A datagram whose flags fit its payload, with well-formed frames or at most 8192 records, is
  -- encoded; decoding gives it back whole with nothing left, but that an ACK or NACK carries no
  -- sequence number and its ranges that wrap come as their halves.
  pub decode-encode_datagram :
      (d : Datagram)
      → HasFlags d.header.flags (kind d.payload)
      → IsSeq d.header.sequence
      → IsBody d.payload
      → (bytes : List ℕ) × (encode d ≡ ok bytes) × (decode bytes ≡ some (ok (received d, [])))
  unfolding encode decode
  decode-encode_datagram d h s v =
      let (bytes, e, r) = body_lem d.header.flags d.header.sequence d.payload h s v in
      (
        d.header.flags ∷ bytes,
        rw (validates d.header.flags d.payload h.2, e),
        rw (flags_lem d.header.flags (kind d.payload) h, decode) r,
      )
