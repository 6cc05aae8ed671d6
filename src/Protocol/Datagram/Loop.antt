-- ===== src/Protocol/Datagram/Loop.antt =====
-- The loop that decodes frames until the source is used up.
use raknet_rust.Common.{
  ℕ, zero, suc, ◌≤◌, ◌<◌, ◌≡◌, ◌≢◌, refl, ◌∙◌, ap, inl, inr, List, [], ◌∷◌, ◌++◌, length,
  length-append, append_assoc, append-nil, All, IsByte, none, some, ok, Result-cases, arith,
}
use raknet_rust.Protocol.Buffers.{BufInts}
use raknet_rust.Protocol.Frame
use raknet_rust.Protocol.Frame.{Frame}
use raknet_rust.Protocol.Frame.Size
use raknet_rust.Protocol.Frame.RoundTrip
use raknet_rust.Protocol.Frame.RoundTrip.{IsFrame}
use raknet_rust.Protocol.Frame.Parse.{decode-IsFrame}
use raknet_rust.Protocol.Datagram.{encode_frames, decode_frames}

module _ ⦃io : BufInts⦄ where
  step_ok :
      (fuel : ℕ) (src rest : List ℕ) (out : List Frame) (f : Frame)
      → 0 < length src
      → Frame.decode src ≡ ok (f, rest)
      → decode_frames (suc fuel) src out ≡ decode_frames fuel rest (out ++ (f ∷ []))
  unfolding decode_frames
  step_ok fuel [] rest out f h e = absurd (omega arith)
  step_ok fuel (b ∷ src) rest out f h e = rw (e, decode_frames)

  -- A round takes four bytes or more, so a round for each byte is enough.
  pub decode_frames-ne-none :
      (fuel : ℕ) (src : List ℕ) (out : List Frame)
      → All IsByte src
      → length src ≤ fuel
      → decode_frames fuel src out ≢ none
  unfolding decode_frames
  decode_frames-ne-none fuel [] out h enough = λ e. cc
  decode_frames-ne-none zero (b ∷ src) out h enough = absurd (omega arith)
  decode_frames-ne-none (suc fuel) (b ∷ src) out h enough =
      elim (Result-cases (Frame.decode (b ∷ src))) [
        | inl ((f, rest), e) ↦
            let (v, bytes, shorter) = decode-IsFrame (b ∷ src) rest f h e in
            rw (e, decode_frames)
              (decode_frames-ne-none fuel rest (out ++ (f ∷ [])) bytes (omega arith))
        | inr (x, e) ↦ rw (e, decode_frames) (λ p. cc)
      ]

  -- Well-formed frames are encoded, and the loop reads them back behind what it has.
  pub decode_frames-encode_frames :
      (fs : List Frame)
      → All IsFrame fs
      → (bytes : List ℕ) × (encode_frames fs ≡ ok bytes)
        × ((fuel : ℕ) (out : List Frame)
            → length bytes ≤ fuel
            → decode_frames fuel bytes out ≡ some (ok (out ++ fs, [])))
  unfolding encode_frames
  decode_frames-encode_frames [] v = ([], refl, λ fuel out h. unfold decode_frames in rw append-nil)
  decode_frames-encode_frames (f ∷ fs) v =
      let (front, e1, d1) = RoundTrip.decode-encode_frame f v.0 in
      let (back, e2, d2) = decode_frames-encode_frames fs v.1 in
      (front ++ back, rw (e1, e2), rounds front back e1 d1 d2)
    where
      rounds :
          (front back : List ℕ)
          → Frame.encode f ≡ ok front
          → ((rest : List ℕ) → Frame.decode (front ++ rest) ≡ ok (f, rest))
          → ((fuel : ℕ) (out : List Frame)
              → length back ≤ fuel
              → decode_frames fuel back out ≡ some (ok (out ++ fs, [])))
          → (fuel : ℕ) (out : List Frame) → length (front ++ back) ≤ fuel
          → decode_frames fuel (front ++ back) out ≡ some (ok (out ++ f ∷ fs, []))
      rounds front back e1 d1 d2 zero out h =
          absurd (omega (arith, Size.encode-nonempty f front e1, length-append front back))
      rounds front back e1 d1 d2 (suc fuel) out h =
          let size = Size.encode-nonempty f front e1 in
          let sum = length-append front back in
          step_ok fuel (front ++ back) back out f (omega (arith, size, sum)) (d1 back)
          ∙ d2 fuel (out ++ (f ∷ [])) (omega (arith, size, sum))
          ∙ ap (λ l. some (ok (l, []))) (append_assoc out (f ∷ []) fs)
