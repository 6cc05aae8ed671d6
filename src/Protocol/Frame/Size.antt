-- ===== src/Protocol/Frame/Size.antt =====
-- `encoded_size` against the bytes of a frame, and how much of a source a frame takes.
use raknet_rust.Common.{
  ℕ, ◌≤◌, ◌≡◌, refl, Bool, true, false, not, ◌==◌, if◌then◌else◌, List, [], ◌∷◌, ◌++◌, length,
  length-append, Option, none, some, ok, arith, not-==→eq, Post, Post-bind, Post-fail_if, Post_elim,
  returns, fails,
}
use raknet_rust.Protocol.Errors.{
  EncodeError, frame_bit_length_mismatch, missing_reliable_index, missing_sequence_index,
}
use raknet_rust.Protocol.Buffers.{BufInts}
use raknet_rust.Protocol.Primitives.{encode_int, encode_u8}
use raknet_rust.Protocol.Primitives.RoundTrip.{length-encode_int}
use raknet_rust.Protocol.Sequence24
use raknet_rust.Protocol.Sequence24.{Sequence24}
use raknet_rust.Protocol.Sequence24.Codec
use raknet_rust.Protocol.Reliability.{is_reliable, is_sequenced}
use raknet_rust.Protocol.FrameHeader
use raknet_rust.Protocol.Frame.{
  Frame, SplitInfo, reliability_of, has_order, payload_len, encode_index, encode_order,
  encode_split, encode, encoded_size,
}

abbrev HasLength : ℕ → List ℕ → Type 0
HasLength n bytes = length bytes ≡ n

length-encode_index :
    (flag : Bool) (index : Option Sequence24) (e : EncodeError)
    → Post (HasLength (if flag then 3 else 0)) (encode_index flag index e)
unfolding encode_index
length-encode_index true (some i) e = returns (Codec.length-encode i)
length-encode_index true none e = fails
length-encode_index false index e = returns refl

length-encode_order :
    (flag : Bool) (index : Option Sequence24) (channel : Option ℕ)
    → Post (HasLength (if flag then 4 else 0)) (encode_order flag index channel)
unfolding encode_order encode_u8
length-encode_order true (some i) (some c) =
    returns (omega (arith, length-append (Sequence24.encode i) (c ∷ []), Codec.length-encode i))
length-encode_order true (some i) none = fails
length-encode_order true none channel = fails
length-encode_order false index channel = returns refl

module _ ⦃io : BufInts⦄ where
  length-encode_split :
      (flag : Bool) (split : Option SplitInfo)
      → Post (HasLength (if flag then 10 else 0)) (encode_split flag split)
  unfolding encode_split
  length-encode_split true (some s) = returns (
      omega (
        arith,
        length-append (encode_int 4 s.part_count)
            (encode_int 2 s.part_id ++ encode_int 4 s.part_index),
        length-append (encode_int 2 s.part_id) (encode_int 4 s.part_index),
        length-encode_int 4 s.part_count,
        length-encode_int 2 s.part_id,
        length-encode_int 4 s.part_index,
      ))
  length-encode_split true none = fails
  length-encode_split false split = returns refl

  encode-Post : (f : Frame) → Post (HasLength (encoded_size f)) (encode f)
  unfolding encode encoded_size FrameHeader.encode
  encode-Post f =
      let rel = reliability_of f in
      Post-fail_if (not (payload_len f == length f.payload)) frame_bit_length_mismatch _ λ full.
        Post-bind _ (length-encode_index (is_reliable rel) f.reliable_index missing_reliable_index)
          λ b1 l1.
            Post-bind _
              (length-encode_index (is_sequenced rel) f.sequence_index missing_sequence_index)
              λ b2 l2.
                Post-bind _
                  (length-encode_order (has_order rel) f.ordering_index f.ordering_channel)
                  λ b3 l3. Post-bind _ (length-encode_split f.header.is_split f.split) λ b4 l4.
                    returns (
                      omega (
                        arith,
                        length-append {0},
                        length-encode_int 2 f.bit_length,
                        l1,
                        l2,
                        l3,
                        l4,
                        not-==→eq (payload_len f) (length f.payload) full,
                      ))

  -- Whatever is encoded takes as many bytes as `encoded_size` says.
  pub length-encode_frame :
      (f : Frame) (bytes : List ℕ) → encode f ≡ ok bytes → length bytes ≡ encoded_size f
  length-encode_frame f bytes e = Post_elim (encode-Post f) e

  pub encode-nonempty : (f : Frame) (bytes : List ℕ) → encode f ≡ ok bytes → 3 ≤ length bytes
  unfolding encoded_size
  encode-nonempty f bytes e = omega (arith, length-encode_frame f bytes e)
