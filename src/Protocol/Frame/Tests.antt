-- ===== src/Protocol/Frame/Tests.antt =====
-- The theorems on frames at concrete frames.
use raknet_rust.Common.{ℕ, ◌+◌, ◌≤◌, ◌≡◌, refl, List, [], ◌∷◌, ◌++◌, length, ok, All, IsByte, arith}
use raknet_rust.Protocol.Buffers.Reference.{reference}
use raknet_rust.Protocol.Primitives.{
  encode_int, decode_int, encode_u8, decode_u8, encode_u24, decode_u24, decode_bytes,
}
use raknet_rust.Protocol.Sequence24
use raknet_rust.Protocol.Reliability.{is_reliable, is_ordered, is_sequenced, try_from}
use raknet_rust.Protocol.FrameHeader
use raknet_rust.Protocol.Frame.{
  encode, decode, encode_index, encode_order, encode_split, decode_index, decode_order,
  decode_split, has_order, payload_len, bytes_for,
}
use raknet_rust.Protocol.Frame.RoundTrip.{IsFrame, decode-encode_frame}
use raknet_rust.Protocol.Frame.Parse.{decode-IsFrame}
use raknet_rust.Protocol.Frame.Samples.{ordered_frame, part_frame, part_frame-IsFrame}

abbrev ordered_bytes : List ℕ
ordered_bytes = 0x60 ∷ 0 ∷ 16 ∷ 1 ∷ 0 ∷ 0 ∷ 5 ∷ 0 ∷ 0 ∷ 2 ∷ 104 ∷ 105 ∷ []

encode_ordered : encode (ordered_frame 5 2 (104 ∷ 105 ∷ [])) ≡ ok ordered_bytes
unfolding encode encode_index encode_order encode_split has_order is_reliable is_ordered
    is_sequenced payload_len bytes_for encode_int encode_u8 Sequence24.encode Sequence24.value
    encode_u24 FrameHeader.encode FrameHeader.to_byte
encode_ordered = refl

decode_ordered : decode ordered_bytes ≡ ok (ordered_frame 5 2 (104 ∷ 105 ∷ []), [])
unfolding decode decode_index decode_order decode_split has_order is_reliable is_ordered
    is_sequenced payload_len bytes_for decode_int decode_u8 decode_bytes Sequence24.decode
    Sequence24.new decode_u24 FrameHeader.decode FrameHeader.from_byte try_from
decode_ordered = refl

decode-encode_frame_part :
    (bytes : List ℕ) × (encode (part_frame 1 (7 ∷ [])) ≡ ok bytes)
    × ((rest : List ℕ) → decode (bytes ++ rest) ≡ ok (part_frame 1 (7 ∷ []), rest))
decode-encode_frame_part = decode-encode_frame (part_frame 1 (7 ∷ [])) part_frame-IsFrame

decode-IsFrame_ordered :
    IsFrame (ordered_frame 5 2 (104 ∷ 105 ∷ [])) × All IsByte [] × (0 + 4 ≤ length ordered_bytes)
decode-IsFrame_ordered =
    decode-IsFrame ordered_bytes [] (ordered_frame 5 2 (104 ∷ 105 ∷ [])) (ground arith)
      decode_ordered
