-- ===== src/Protocol/Datagram.antt =====
-- src/protocol/datagram.rs: a datagram is a header with frames, or the payload of an ACK or NACK.
pub mod Loop
pub mod RoundTrip
pub mod Size
pub mod Total
mod Tests
use Prim.Native.Nat.{bit_and}
use raknet_rust.Common.{
  ℕ, zero, suc, ◌+◌, ◌<◌, ◌≡◌, Bool, true, false, not, ◌||◌, ◌==◌, if◌then◌else◌, List, [], ◌∷◌,
  ◌++◌, length, ltb, Option, none, some, Result, ok, err, ◌>>=◌, ◌>>◌, fail_if,
}
use mathlib.Core.Option
use raknet_rust.Protocol.Errors.{EncodeError, DecodeError, unexpected_eof}
use raknet_rust.Protocol.Constants.{raknet_datagram_header_size}
use raknet_rust.Protocol.Buffers.{BufInts}
use raknet_rust.Protocol.Primitives.{Decoded, encode_u8, decode_u8}
use raknet_rust.Protocol.Sequence24
use raknet_rust.Protocol.Sequence24.{Sequence24}
use raknet_rust.Protocol.Ack.{AckNackPayload, payload_size, encode_payload, decode_payload}
use raknet_rust.Protocol.Frame
use raknet_rust.Protocol.Frame.{Frame}

-- The type that the `bitflags` crate generates from the constants of src/protocol/constants.rs, 0x80
-- down to 0x04, is its bits; `from_bits_truncate` is documented to unset the bits that no constant has.
pub record DatagramFlags : Type 0 where
  pub from_bits_truncate : ℕ → ℕ
  pub truncate_known :
      (bits : ℕ) → bits < 256 → bit_and bits 0x03 ≡ 0 → from_bits_truncate bits ≡ bits

pub data DatagramKind : Type 0 where
  data_kind ack_kind nack_kind : DatagramKind

pub data DatagramPayload : Type 0 where
  frames : List Frame → DatagramPayload
  ack : AckNackPayload → DatagramPayload
  nack : AckNackPayload → DatagramPayload

abbrev pub kind : DatagramPayload → DatagramKind
kind (frames fs) = data_kind
kind (ack p) = ack_kind
kind (nack p) = nack_kind

pub record DatagramHeader : Type 0 where
  pub flags : ℕ
  pub sequence : Sequence24

pub record Datagram : Type 0 where
  pub header : DatagramHeader
  pub payload : DatagramPayload

abbrev pub datagram_of : ℕ → Sequence24 → DatagramPayload → Datagram
datagram_of flags seq p = record { header = record { flags = flags; sequence = seq }; payload = p }

abbrev pub sum_frames : List Frame → ℕ
sum_frames [] = 0
sum_frames (f ∷ fs) = Frame.encoded_size f + sum_frames fs

unfoldable pub payload_bytes : DatagramPayload → ℕ
payload_bytes (frames fs) = raknet_datagram_header_size + sum_frames fs
payload_bytes (ack p) = 1 + payload_size p
payload_bytes (nack p) = 1 + payload_size p

unfoldable pub encoded_size : Datagram → ℕ
unfolding payload_bytes
encoded_size d = payload_bytes d.payload

abbrev same_kind : DatagramKind → DatagramKind → Bool
same_kind data_kind data_kind = true
same_kind ack_kind ack_kind = true
same_kind nack_kind nack_kind = true
same_kind _ _ = false

-- The kind that the first byte announces.
unfoldable pub flags_kind : ℕ → Result DecodeError DatagramKind
flags_kind raw_flags = do
  fail_if (bit_and raw_flags 0x80 == 0) (DecodeError.invalid_datagram_flags raw_flags)
  let has_ack = raw_flags == 0xC0 || raw_flags == 0xD0
  let has_nack = raw_flags == 0xA0
  ok (if has_ack then ack_kind else if has_nack then nack_kind else data_kind)

module _ ⦃bits : DatagramFlags⦄ where
  unfoldable pub decode_datagram_flags : ℕ → Result DecodeError (ℕ × DatagramKind)
  decode_datagram_flags raw_flags = do
    let flags = bits.from_bits_truncate raw_flags
    kind ← flags_kind raw_flags
    ok (flags, kind)

-- `map_err` to the encoder's error, then the comparison of the kinds.
check_kind : ℕ → DatagramPayload → Result DecodeError DatagramKind → Result EncodeError (Unit {0})
check_kind raw p (ok k) =
    fail_if (not (same_kind k (kind p))) (EncodeError.invalid_datagram_flags raw)
check_kind raw p (err e) = err (EncodeError.invalid_datagram_flags raw)

-- `decode_datagram_flags` returns the flags too, which are not looked at.
unfoldable pub validate_flags_for_payload : ℕ → DatagramPayload → Result EncodeError (Unit {0})
unfolding check_kind
validate_flags_for_payload flags p = check_kind flags p (flags_kind flags)

module _ ⦃io : BufInts⦄ where
  unfoldable pub encode_frames : List Frame → Result EncodeError (List ℕ)
  encode_frames [] = ok []
  encode_frames (f ∷ fs) = do front ← Frame.encode f; rest ← encode_frames fs; ok (front ++ rest)

  encode_body : DatagramHeader → DatagramPayload → Result EncodeError (List ℕ)
  encode_body h (frames fs) = do
    body ← encode_frames fs
    ok (encode_u8 h.flags ++ (Sequence24.encode h.sequence ++ body))
  encode_body h (ack p) = do body ← encode_payload p; ok (encode_u8 h.flags ++ body)
  encode_body h (nack p) = do body ← encode_payload p; ok (encode_u8 h.flags ++ body)

  unfoldable pub encode : Datagram → Result EncodeError (List ℕ)
  unfolding encode_body
  encode d = do validate_flags_for_payload d.header.flags d.payload; encode_body d.header d.payload

  -- `while src.has_remaining()`, with fuel; `none` means that the fuel ran out.
  unfoldable pub decode_frames : ℕ → List ℕ → List Frame → Option (Decoded (List Frame))
  decode_frames fuel [] out = some (ok (out, []))
  decode_frames zero (b ∷ src) out = none
  decode_frames (suc fuel) (b ∷ src) out = elim (Frame.decode (b ∷ src)) [
    | ok (f, rest) ↦ decode_frames fuel rest (out ++ (f ∷ []))
    | err e ↦ some (err e)
  ]

  decode_frames_from : ℕ → Sequence24 → List ℕ → Option (Decoded Datagram)
  decode_frames_from flags seq src =
      Option.map (λ r. r >>= λ p. ok (datagram_of flags seq (frames p.0), p.1))
        (decode_frames (length src) src [])

  decode_as : ℕ → DatagramKind → List ℕ → Option (Decoded Datagram)
  unfolding decode_frames_from
  decode_as flags ack_kind src =
      some do (p, src) ← decode_payload src; ok (datagram_of flags (Sequence24.new 0) (ack p), src)
  decode_as flags nack_kind src =
      some do (p, src) ← decode_payload src; ok (datagram_of flags (Sequence24.new 0) (nack p), src)
  decode_as flags data_kind src = elim (Sequence24.decode src) [
    | ok (seq, rest) ↦ decode_frames_from flags seq rest
    | err e ↦ some (err e)
  ]

  -- `none` is a loop that is out of fuel; the loop gets a round for each byte.
  unfoldable pub decode : ⦃bits : DatagramFlags⦄ → List ℕ → Option (Decoded Datagram)
  unfolding decode_as
  decode [] = some (err unexpected_eof)
  decode (raw_flags ∷ src) = elim (decode_datagram_flags raw_flags) [
    | ok (flags, kind) ↦ decode_as flags kind src
    | err e ↦ some (err e)
  ]

unfoldable pub encode_header : DatagramHeader → List ℕ
encode_header h = encode_u8 h.flags ++ Sequence24.encode h.sequence

unfoldable pub decode_header : ⦃bits : DatagramFlags⦄ → List ℕ → Decoded DatagramHeader
decode_header src = do
  fail_if (ltb (length src) 4) unexpected_eof
  (raw_flags, src) ← decode_u8 src
  (flags, kind) ← decode_datagram_flags raw_flags
  fail_if (not (same_kind kind data_kind)) (DecodeError.invalid_datagram_flags raw_flags)
  (sequence, src) ← Sequence24.decode src
  ok (record { flags = flags; sequence = sequence }, src)
