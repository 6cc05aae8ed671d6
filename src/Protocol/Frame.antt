-- ===== src/Protocol/Frame.antt =====
-- src/protocol/frame.rs: one frame of a datagram, with the fields that its header announces.
pub mod Fields
pub mod RoundTrip
pub mod Size
pub mod Parse
pub mod Samples
mod Tests
use raknet_rust.Common.{
  ℕ, ◌+◌, ◌/◌, ◌≤◌, ◌<◌, ◌≡◌, Bool, true, false, not, ◌||◌, ◌==◌, ltb, leb, if◌then◌else◌, List, [],
  ◌++◌, length, Option, none, some, Result, ok, err, ◌>>=◌, ◌>>◌, fail_if, ok_or,
}
use raknet_rust.Protocol.Errors.{
  EncodeError, missing_reliable_index, missing_sequence_index, missing_ordering_index,
  missing_ordering_channel, frame_bit_length_mismatch, DecodeError, invalid_frame_bit_length,
  split_index_out_of_range, split_count_zero,
}
use raknet_rust.Protocol.Constants.{max_split_parts}
use raknet_rust.Protocol.Buffers.{BufInts}
use raknet_rust.Protocol.Primitives.{
  Decoded, encode_u8, decode_u8, encode_int, decode_int, decode_bytes,
}
use raknet_rust.Protocol.Sequence24
use raknet_rust.Protocol.Sequence24.{Sequence24, IsSeq}
use raknet_rust.Protocol.Reliability.{Reliability, is_reliable, is_ordered, is_sequenced}
use raknet_rust.Protocol.FrameHeader
use raknet_rust.Protocol.FrameHeader.{FrameHeader}

pub record SplitInfo : Type 0 where
  pub part_count : ℕ
  pub part_id : ℕ
  pub part_index : ℕ

pub record Frame : Type 0 where
  pub header : FrameHeader
  pub bit_length : ℕ
  pub reliable_index : Option Sequence24
  pub sequence_index : Option Sequence24
  pub ordering_index : Option Sequence24
  pub ordering_channel : Option ℕ
  pub split : Option SplitInfo
  pub payload : List ℕ

abbrev pub reliability_of : Frame → Reliability
reliability_of f = f.header.reliability

-- Whether a frame of this reliability has an ordering index and a channel.
unfoldable pub has_order : Reliability → Bool
has_order rel = is_ordered rel || is_sequenced rel

-- `(bits + 7) >> 3`.
unfoldable pub bytes_for : ℕ → ℕ
bytes_for bits = (bits + 7) / 8

unfoldable pub payload_len : Frame → ℕ
unfolding bytes_for
payload_len f = bytes_for f.bit_length

-- What the fields between the length and the payload take.
unfoldable pub fields_size : Reliability → Bool → ℕ
unfolding has_order
fields_size rel is_split =
    (if is_reliable rel then 3 else 0)
    + (if is_sequenced rel then 3 else 0)
    + (if has_order rel then 4 else 0)
    + (if is_split then 10 else 0)

unfoldable pub encoded_size : Frame → ℕ
unfolding fields_size payload_len
encoded_size f = 3 + fields_size (reliability_of f) f.header.is_split + payload_len f

-- An index that is written when the flag is set, and then has to be there.
unfoldable pub encode_index : Bool → Option Sequence24 → EncodeError → Result EncodeError (List ℕ)
encode_index false index e = ok []
encode_index true index e = do i ← ok_or index e; ok (Sequence24.encode i)

unfoldable pub decode_index : Bool → List ℕ → Decoded (Option Sequence24)
decode_index false src = ok (none, src)
decode_index true src = do (i, src) ← Sequence24.decode src; ok (some i, src)

unfoldable pub encode_order : Bool → Option Sequence24 → Option ℕ → Result EncodeError (List ℕ)
encode_order false index channel = ok []
encode_order true index channel = do
  i ← ok_or index missing_ordering_index
  c ← ok_or channel missing_ordering_channel
  ok (Sequence24.encode i ++ encode_u8 c)

unfoldable pub decode_order : Bool → List ℕ → Decoded (Option Sequence24 × Option ℕ)
decode_order false src = ok ((none, none), src)
decode_order true src = do
  (i, src) ← Sequence24.decode src
  (c, src) ← decode_u8 src
  ok ((some i, some c), src)

module _ ⦃io : BufInts⦄ where
  unfoldable pub encode_split : Bool → Option SplitInfo → Result EncodeError (List ℕ)
  encode_split false split = ok []
  encode_split true split = do
    s ← ok_or split EncodeError.missing_split_info
    ok (encode_int 4 s.part_count ++ (encode_int 2 s.part_id ++ encode_int 4 s.part_index))

  unfoldable pub decode_split : Bool → List ℕ → Decoded (Option SplitInfo)
  decode_split false src = ok (none, src)
  decode_split true src = do
    (part_count, src) ← decode_int 4 src
    fail_if (part_count == 0) split_count_zero
    fail_if (ltb max_split_parts part_count) split_index_out_of_range
    (part_id, src) ← decode_int 2 src
    (part_index, src) ← decode_int 4 src
    fail_if (leb part_count part_index) split_index_out_of_range
    ok (some (record { part_count = part_count; part_id = part_id; part_index = part_index }), src)

  unfoldable pub encode : Frame → Result EncodeError (List ℕ)
  encode f = do
    let rel = reliability_of f
    fail_if (not (payload_len f == length f.payload)) frame_bit_length_mismatch
    reliable ← encode_index (is_reliable rel) f.reliable_index missing_reliable_index
    sequence ← encode_index (is_sequenced rel) f.sequence_index missing_sequence_index
    order ← encode_order (has_order rel) f.ordering_index f.ordering_channel
    split ← encode_split f.header.is_split f.split
    ok (
        FrameHeader.encode f.header
        ++ (encode_int 2 f.bit_length
            ++ (reliable ++ (sequence ++ (order ++ (split ++ f.payload))))))

  unfoldable pub decode : List ℕ → Decoded Frame
  decode src = do
    (header, src) ← FrameHeader.decode src
    (bit_length, src) ← decode_int 2 src
    fail_if (bytes_for bit_length == 0) (invalid_frame_bit_length bit_length)
    (reliable_index, src) ← decode_index (is_reliable header.reliability) src
    (sequence_index, src) ← decode_index (is_sequenced header.reliability) src
    (order, src) ← decode_order (has_order header.reliability) src
    (split, src) ← decode_split header.is_split src
    (payload, src) ← decode_bytes (bytes_for bit_length) src
    ok (
      record {
        header = header;
        bit_length = bit_length;
        reliable_index = reliable_index;
        sequence_index = sequence_index;
        ordering_index = order.0;
        ordering_channel = order.1;
        split = split;
        payload = payload;
      },
      src,
    )
