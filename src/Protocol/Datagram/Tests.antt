-- ===== src/Protocol/Datagram/Tests.antt =====
-- The theorems on datagrams at concrete datagrams.
use Prim.Native.Nat.{bit_and}
use raknet_rust.Common.{ℕ, ◌-◌, ◌≡◌, ◌≢◌, refl, List, [], ◌∷◌, length, ok, none, some, arith}
use raknet_rust.Protocol.Buffers.Reference.{reference}
use raknet_rust.Protocol.Primitives.{encode_int, encode_u8, encode_bool, encode_u24}
use raknet_rust.Protocol.Sequence24
use raknet_rust.Protocol.Ack.{
  range_of, encode_payload, total_records, encode_range, split_wrapping, record_count, wraps,
}
use raknet_rust.Protocol.Frame.Samples.{
  ordered_frame, ordered_frame-IsFrame, part_frame, part_frame-IsFrame,
}
use raknet_rust.Protocol.Datagram.{
  DatagramFlags, Datagram, frames, ack, datagram_of, flags_kind, encode, decode, encoded_size,
  validate_flags_for_payload, decode_datagram_flags, encode_body, check_kind,
}
use raknet_rust.Protocol.Datagram.RoundTrip.{received, decode-encode_datagram}
use raknet_rust.Protocol.Datagram.Size.{length-encode_datagram}
use raknet_rust.Protocol.Datagram.Total.{decode_datagram-ne-none}

-- The low two bits, which no flag has, are unset.
instance abbrev flags : DatagramFlags
flags = record {
  from_bits_truncate = λ bits. bits - bit_and bits 0x03;
  truncate_known = λ bits h e. omega (arith, e);
}

abbrev two_frames : Datagram
two_frames =
    datagram_of 0x84 77 (frames (ordered_frame 5 2 (104 ∷ 105 ∷ []) ∷ part_frame 1 (7 ∷ []) ∷ []))

decode-encode_datagram_frames :
    (bytes : List ℕ) × (encode two_frames ≡ ok bytes)
    × (decode bytes ≡ some (ok (received two_frames, [])))
decode-encode_datagram_frames =
    decode-encode_datagram two_frames (omega arith, refl, unfold flags_kind in refl) (omega arith)
      (ordered_frame-IsFrame, (part_frame-IsFrame, tt))

abbrev one_ack : Datagram
one_ack = datagram_of 0xC0 0 (ack record { ranges = range_of 3 3 ∷ [] })

abbrev ack_bytes : List ℕ
ack_bytes = 0xC0 ∷ 0 ∷ 1 ∷ 1 ∷ 3 ∷ 0 ∷ 0 ∷ []

encode_ack : encode one_ack ≡ ok ack_bytes
unfolding encode validate_flags_for_payload check_kind decode_datagram_flags flags_kind encode_body
    encode_payload encode_range split_wrapping total_records record_count wraps encode_u8 encode_int
    encode_bool Sequence24.encode Sequence24.value encode_u24
encode_ack = refl

length-encode_datagram_ack : length ack_bytes ≡ encoded_size one_ack
length-encode_datagram_ack = length-encode_datagram one_ack ack_bytes encode_ack

decode_datagram-ne-none_short : decode (0x84 ∷ 1 ∷ 0 ∷ 0 ∷ 0x60 ∷ 0 ∷ []) ≢ none
decode_datagram-ne-none_short =
    decode_datagram-ne-none (0x84 ∷ 1 ∷ 0 ∷ 0 ∷ 0x60 ∷ 0 ∷ []) (ground arith)
