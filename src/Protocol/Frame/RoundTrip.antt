-- ===== src/Protocol/Frame/RoundTrip.antt =====
-- A whole frame on the wire.
use raknet_rust.Common.{
  ℕ, ◌<◌, ◌≡◌, ◌≢◌, sym, ==_refl, false, ◌==◌, List, ◌++◌, length, ok, err, append_assoc, arith,
}
use raknet_rust.Protocol.Errors.{
  frame_bit_length_mismatch, missing_reliable_index, missing_sequence_index,
}
use raknet_rust.Protocol.Buffers.{BufInts}
use raknet_rust.Protocol.Primitives.{encode_int}
use raknet_rust.Protocol.Primitives.RoundTrip.{decode_int-encode_int, decode_bytes-append}
use raknet_rust.Protocol.Reliability.{is_reliable, is_sequenced}
use raknet_rust.Protocol.FrameHeader
use raknet_rust.Protocol.FrameHeader.{FrameHeader}
use raknet_rust.Protocol.Frame.Fields.{
  HasIndex, HasOrder, HasSplit, index_lem, order_lem, split_lem,
}
use raknet_rust.Protocol.Frame.{
  Frame, reliability_of, has_order, bytes_for, payload_len, encode_index, encode_order,
  encode_split, decode_index, decode_order, decode_split, encode, decode,
}

-- A frame as the decoder makes it: the payload is not empty and has the announced length, and each
-- optional field is there exactly when the header asks for it.
pub record IsFrame (f : Frame) : Type 0 where
  pub bits : f.bit_length < 65536
  pub full : payload_len f ≡ length f.payload
  pub nonempty : 0 < length f.payload
  pub reliable : HasIndex (is_reliable (reliability_of f)) f.reliable_index
  pub sequence : HasIndex (is_sequenced (reliability_of f)) f.sequence_index
  pub order : HasOrder (has_order (reliability_of f)) f.ordering_index f.ordering_channel
  pub split_info : HasSplit f.header.is_split f.split

module _ ⦃io : BufInts⦄ (f : Frame) (v : IsFrame f) (b1 b2 b3 b4 : List ℕ) where
  abbrev frame_bytes : List ℕ
  frame_bytes =
      FrameHeader.encode f.header
      ++ (encode_int 2 f.bit_length ++ (b1 ++ (b2 ++ (b3 ++ (b4 ++ f.payload)))))

  encode_lem :
      encode_index (is_reliable (reliability_of f)) f.reliable_index missing_reliable_index ≡ ok b1
      → encode_index (is_sequenced (reliability_of f)) f.sequence_index missing_sequence_index
        ≡ ok b2
      → encode_order (has_order (reliability_of f)) f.ordering_index f.ordering_channel ≡ ok b3
      → encode_split f.header.is_split f.split ≡ ok b4
      → encode f ≡ ok frame_bytes
  unfolding encode
  encode_lem e1 e2 e3 e4 = rw (v.full, ==_refl (length f.payload), e1, e2, e3, e4)

  nonempty_bytes : (bytes_for f.bit_length == 0) ≡ false
  unfolding payload_len
  nonempty_bytes = ground (arith, v.full, v.nonempty)

  decode_lem :
      ((rest : List ℕ)
        → decode_index (is_reliable (reliability_of f)) (b1 ++ rest) ≡ ok (f.reliable_index, rest))
      → ((rest : List ℕ)
          → decode_index (is_sequenced (reliability_of f)) (b2 ++ rest)
            ≡ ok (f.sequence_index, rest))
      → ((rest : List ℕ)
          → decode_order (has_order (reliability_of f)) (b3 ++ rest)
            ≡ ok ((f.ordering_index, f.ordering_channel), rest))
      → ((rest : List ℕ) → decode_split f.header.is_split (b4 ++ rest) ≡ ok (f.split, rest))
      → (rest : List ℕ) → decode (frame_bytes ++ rest) ≡ ok (f, rest)
  unfolding decode payload_len
  decode_lem d1 d2 d3 d4 rest = simp (
    append_assoc,
    FrameHeader.decode-encode f.header,
    decode_int-encode_int 2 f.bit_length (b1 ++ (b2 ++ (b3 ++ (b4 ++ (f.payload ++ rest))))) v.bits,
    nonempty_bytes,
    d1,
    d2,
    d3,
    d4,
    decode_bytes-append (bytes_for f.bit_length) f.payload rest (sym v.full),
  )

module _ ⦃io : BufInts⦄ where
  -- A well-formed frame is encoded, and what is decoded from its bytes is the frame, with all that
  -- follows left in the source.
  pub decode-encode_frame :
      (f : Frame)
      → IsFrame f
      → (bytes : List ℕ) × (encode f ≡ ok bytes)
        × ((rest : List ℕ) → decode (bytes ++ rest) ≡ ok (f, rest))
  decode-encode_frame f v =
      let rel = reliability_of f in
      let (b1, e1, d1) =
        index_lem (is_reliable rel) f.reliable_index missing_reliable_index v.reliable in
      let (b2, e2, d2) =
        index_lem (is_sequenced rel) f.sequence_index missing_sequence_index v.sequence in
      let (b3, e3, d3) = order_lem (has_order rel) f.ordering_index f.ordering_channel v.order in
      let (b4, e4, d4) = split_lem f.header.is_split f.split v.split_info in
      (
        frame_bytes f v b1 b2 b3 b4,
        encode_lem f v b1 b2 b3 b4 e1 e2 e3 e4,
        decode_lem f v b1 b2 b3 b4 d1 d2 d3 d4,
      )

  -- The only frames refused for their length are those whose bit length does not give the payload.
  pub encode_mismatch :
      (f : Frame) → payload_len f ≢ length f.payload → encode f ≡ err frame_bit_length_mismatch
  unfolding encode
  encode_mismatch f h = ground arith
