-- ===== src/Protocol/Frame/Parse.antt =====
-- What a successful decoding of a frame returns, field by field.
use raknet_rust.Common.{
  ℕ, ◌+◌, ◌≤◌, ◌≡◌, sym, Bool, true, false, ◌==◌, ltb, leb, List, length, ok, All, IsByte, Post,
  returns, Post-bind, Post-fail_if, Post_elim, Post-any, arith,
}
use raknet_rust.Protocol.Errors.{
  split_count_zero, split_index_out_of_range, invalid_frame_bit_length,
}
use raknet_rust.Protocol.Constants.{max_split_parts}
use raknet_rust.Protocol.Buffers.{BufInts}
use raknet_rust.Protocol.Primitives.Taken.{
  Rest, decode_u8-Post, decode_u24-Post, decode_bytes-Post, decode_int-Post,
}
use raknet_rust.Protocol.Sequence24
use raknet_rust.Protocol.Sequence24.{Sequence24, IsSeq}
use raknet_rust.Protocol.Sequence24.Arith.{new-IsSeq}
use raknet_rust.Protocol.Reliability.{is_reliable, is_sequenced}
use raknet_rust.Protocol.FrameHeader
use raknet_rust.Protocol.FrameHeader.{FrameHeader}
use raknet_rust.Protocol.Frame.Fields.{HasIndex, HasOrder, HasSplit}
use raknet_rust.Protocol.Frame.RoundTrip.{IsFrame}
use raknet_rust.Protocol.Frame.{
  Frame, has_order, bytes_for, payload_len, decode_index, decode_order, decode_split, decode,
}

pub sequence-Post :
    (src : List ℕ) → All IsByte src → Post (λ p. IsSeq p.0 × Rest 3 src p.1) (Sequence24.decode src)
unfolding Sequence24.decode
sequence-Post src h = Post-bind _ (decode_u24-Post src h) λ p q. returns (new-IsSeq p.0, q.1)

header-Post : (src : List ℕ) → All IsByte src → Post (λ p. Rest 1 src p.1) (FrameHeader.decode src)
unfolding FrameHeader.decode
header-Post src h =
    Post-bind _ (decode_u8-Post src h)
      λ p q. Post-bind _ (Post-any (FrameHeader.from_byte p.0)) λ r _. returns q.1

index-Post :
    (flag : Bool) (src : List ℕ)
    → All IsByte src
    → Post (λ p. HasIndex flag p.0 × Rest 0 src p.1) (decode_index flag src)
unfolding decode_index
index-Post false src h = returns (tt, (h, omega arith))
index-Post true src h = Post-bind _ (sequence-Post src h) λ p q. returns (q.0, (q.1.0, omega arith))

order-Post :
    (flag : Bool) (src : List ℕ)
    → All IsByte src
    → Post (λ p. HasOrder flag p.0.0 p.0.1 × Rest 0 src p.1) (decode_order flag src)
unfolding decode_order
order-Post false src h = returns (tt, (h, omega arith))
order-Post true src h =
    Post-bind _ (sequence-Post src h) λ p q.
      Post-bind _ (decode_u8-Post p.1 q.1.0) λ c r. returns ((q.0, r.0), (r.1.0, omega arith))

module _ ⦃io : BufInts⦄ where
  split-Post :
      (flag : Bool) (src : List ℕ)
      → All IsByte src
      → Post (λ p. HasSplit flag p.0 × Rest 0 src p.1) (decode_split flag src)
  unfolding decode_split
  split-Post false src h = returns (tt, (h, omega arith))
  split-Post true src h = Post-bind _ (decode_int-Post 4 src h) λ c qc.
      Post-fail_if (c.0 == 0) split_count_zero _ λ _.
        Post-fail_if (ltb max_split_parts c.0) split_index_out_of_range _ λ small.
          Post-bind _ (decode_int-Post 2 c.1 qc.1.0) λ i qi.
            Post-bind _ (decode_int-Post 4 i.1 qi.1.0) λ x qx.
              Post-fail_if (leb c.0 x.0) split_index_out_of_range _
                λ inside. returns ((ground arith, qi.0, ground arith), (qx.1.0, omega arith))

  decode-Post :
      (src : List ℕ) → All IsByte src → Post (λ p. IsFrame p.0 × Rest 4 src p.1) (decode src)
  unfolding decode payload_len bytes_for
  decode-Post src h = Post-bind _ (header-Post src h) λ a qa.
      Post-bind _ (decode_int-Post 2 a.1 qa.0) λ b qb.
        Post-fail_if (bytes_for b.0 == 0) (invalid_frame_bit_length b.0) _ λ some_bits.
          Post-bind _ (index-Post (is_reliable a.0.reliability) b.1 qb.1.0) λ c qc.
            Post-bind _ (index-Post (is_sequenced a.0.reliability) c.1 qc.1.0) λ d qd.
              Post-bind _ (order-Post (has_order a.0.reliability) d.1 qd.1.0) λ e qe.
                Post-bind _ (split-Post a.0.is_split e.1 qe.1.0) λ g qg.
                  Post-bind _ (decode_bytes-Post (bytes_for b.0) g.1 qg.1.0) λ l ql. returns (
                    record {
                      bits = qb.0;
                      full = sym ql.0;
                      nonempty = ground (arith, ql.0);
                      reliable = qc.0;
                      sequence = qd.0;
                      order = qe.0;
                      split_info = qg.0;
                    },
                    (ql.2.0, ground (arith, ql.0)),
                  )

  -- A frame decoded from bytes is well formed, and the rest of the source is shorter by 4 or more.
  pub decode-IsFrame :
      (src rest : List ℕ) (f : Frame)
      → All IsByte src
      → decode src ≡ ok (f, rest)
      → IsFrame f × All IsByte rest × (length rest + 4 ≤ length src)
  decode-IsFrame src rest f h e = let (v, r) = Post_elim (decode-Post src h) e in (v, r.0, r.1)
