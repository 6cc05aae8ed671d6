-- ===== src/Protocol/Datagram/Size.antt =====
-- `encoded_size` against the bytes of a datagram.
use raknet_rust.Common.{
  ℕ, ◌≡◌, refl, List, [], ◌∷◌, length, length-append, ok, Post, returns, fails, Post-bind, Post-any,
  Post_elim, arith, Result-cases, inl, inr,
}
use raknet_rust.Protocol.Buffers.{BufInts}
use raknet_rust.Protocol.Primitives.{encode_u8}
use raknet_rust.Protocol.Sequence24
use raknet_rust.Protocol.Sequence24.Codec
use raknet_rust.Protocol.Ack.{AckNackPayload, encode_payload, payload_size}
use raknet_rust.Protocol.Ack.Size.{length-encode_payload}
use raknet_rust.Protocol.Frame
use raknet_rust.Protocol.Frame.{Frame}
use raknet_rust.Protocol.Frame.Size.{length-encode_frame}
use raknet_rust.Protocol.Datagram.{
  DatagramPayload, frames, ack, nack, DatagramHeader, Datagram, validate_flags_for_payload,
  encode_frames, encode_body, encode, sum_frames, payload_bytes, encoded_size,
}

module _ ⦃io : BufInts⦄ where
  frame-Post : (f : Frame) → Post (λ b. length b ≡ Frame.encoded_size f) (Frame.encode f)
  frame-Post f = elim (Result-cases (Frame.encode f)) [
    | inl (b, e) ↦ rw e (returns (length-encode_frame f b e))
    | inr (x, e) ↦ rw e fails
  ]

  ack-Post : (p : AckNackPayload) → Post (λ b. length b ≡ payload_size p) (encode_payload p)
  ack-Post p = elim (Result-cases (encode_payload p)) [
    | inl (b, e) ↦ rw e (returns (length-encode_payload p b e))
    | inr (x, e) ↦ rw e fails
  ]

  frames-Post : (fs : List Frame) → Post (λ b. length b ≡ sum_frames fs) (encode_frames fs)
  unfolding encode_frames
  frames-Post [] = returns refl
  frames-Post (f ∷ fs) = Post-bind _ (frame-Post f) λ a qa.
      Post-bind _ (frames-Post fs) λ b qb. returns (omega (arith, length-append a b, qa, qb))

  body-Post :
      (h : DatagramHeader) (p : DatagramPayload)
      → Post (λ b. length b ≡ payload_bytes p) (encode_body h p)
  unfolding encode_body payload_bytes encode_u8
  body-Post h (frames fs) = Post-bind _ (frames-Post fs) λ b q. returns (
      omega
        (arith, length-append (Sequence24.encode h.sequence) b, Codec.length-encode h.sequence, q))
  body-Post h (ack p) = Post-bind _ (ack-Post p) λ b q. returns (omega (arith, q))
  body-Post h (nack p) = Post-bind _ (ack-Post p) λ b q. returns (omega (arith, q))

  encode-Post : (d : Datagram) → Post (λ b. length b ≡ encoded_size d) (encode d)
  unfolding encode encoded_size
  encode-Post d =
      Post-bind _ (Post-any (validate_flags_for_payload d.header.flags d.payload))
        λ _ _. body-Post d.header d.payload

  -- Every datagram that is encoded takes as many bytes as `encoded_size` says.
  pub length-encode_datagram :
      (d : Datagram) (bytes : List ℕ) → encode d ≡ ok bytes → length bytes ≡ encoded_size d
  length-encode_datagram d bytes e = Post_elim (encode-Post d) e
