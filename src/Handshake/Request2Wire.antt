-- ===== src/Handshake/Request2Wire.antt =====
-- The second request on the wire.
use raknet_rust.Common.{
  ℕ, zero, suc, subst, Bool-cases, ◌^◌, ◌≤◌, ◌<◌, ◌≡◌, refl, sym, ap, inl, inr, Bool, true, false,
  not, ◌==◌, ltb, List, [], ◌∷◌, ◌++◌, length, drop, get_or, length-append, take-append, Option,
  none, some, ok, err, Post_elim, Result-cases, append_assoc, append-nil, le→ltb, arith,
}
use raknet_rust.Protocol.Errors.{DecodeError}
use raknet_rust.Protocol.Buffers.{BufInts}
use raknet_rust.Protocol.Primitives.{IsAddr, encode_int, decode_int, encode_bool, encode_addr}
use raknet_rust.Protocol.Primitives.RoundTrip.{decode_int-encode_int, decode_addr-encode_addr}
use raknet_rust.Handshake.Packets.{OpenConnectionRequest2, strict_no_cookie, strict_with_cookie}
use raknet_rust.Handshake.Request2.{
  Request2Candidate, parse_cookie, parse_request_2_candidate, choose_request_2, parse_request_2,
}
use raknet_rust.Handshake.Layout.{front_length, IsLength, one_length, parse_request_2_candidate_lem}
use raknet_rust.Handshake.Encode.{has_cookie, encode_proof}

-- The path and the proof that go with a cookie, as the strict parsers set them.
abbrev pub IsProof : OpenConnectionRequest2 → Option ℕ → Type 0
IsProof p none = (p.parse_path ≡ strict_no_cookie) × (p.client_proof ≡ false)
IsProof p (some cookie) = (p.parse_path ≡ strict_with_cookie) × (cookie < 256 ^ 4)

get_or-append :
    (n : ℕ) (xs : List ℕ) (y d : ℕ) (rest : List ℕ)
    → length xs ≡ n
    → get_or (xs ++ (y ∷ rest)) n d ≡ y
get_or-append zero [] y d rest e = refl
get_or-append zero (x ∷ xs) y d rest e = absurd (omega arith)
get_or-append (suc n) [] y d rest e = absurd (omega arith)
get_or-append (suc n) (x ∷ xs) y d rest e = get_or-append n xs y d rest (omega arith)

drop-append_one :
    (n : ℕ) (xs : List ℕ) (y : ℕ) (rest : List ℕ)
    → length xs ≡ n
    → drop (suc n) (xs ++ (y ∷ rest)) ≡ rest
drop-append_one zero [] y rest e = refl
drop-append_one zero (x ∷ xs) y rest e = absurd (omega arith)
drop-append_one (suc n) [] y rest e = absurd (omega arith)
drop-append_one (suc n) (x ∷ xs) y rest e = drop-append_one n xs y rest (omega arith)

module _ ⦃io : BufInts⦄ where
  -- The cookie and the byte of the proof.
  cookie_byte :
      (cookie b : ℕ) (rest : List ℕ)
      → cookie < 256 ^ 4
      → b ≤ 1
      → parse_cookie true true (encode_int 4 cookie ++ (b ∷ rest))
        ≡ ok ((some cookie, b == 1), rest)
  unfolding parse_cookie encode_int
  cookie_byte cookie b rest h small =
      let bytes = io.put_be 4 cookie in
      let e = io.length-put_be 4 cookie in
      let long : ltb (length (bytes ++ (b ∷ rest))) 5 ≡ false =
        le→ltb _ 5 (omega (arith, length-append bytes (b ∷ rest))) in
      let one : ltb 1 b ≡ false = ground arith in
      rw
        (
          long,
          get_or-append 4 bytes b 0 rest e,
          one,
          take-append 4 bytes (b ∷ rest) e,
          drop-append_one 4 bytes b rest e,
          io.get_be-put_be 4 cookie h,
        )
        refl

  front_lem :
      (p : OpenConnectionRequest2) (cookie : Option ℕ) (rest : List ℕ)
      → IsProof p cookie
      → parse_cookie (has_cookie cookie) true (encode_proof cookie p.client_proof ++ rest)
        ≡ ok ((cookie, p.client_proof), rest)
  unfolding parse_cookie encode_proof encode_bool
  front_lem p none rest (path, off) = ap (λ b. ok ((none, b), rest)) (sym off)
  front_lem p (some cookie) rest (path, h) = elim (Bool-cases p.client_proof) [
    | inl t ↦ rw t (simp append_assoc (cookie_byte cookie 1 rest h (omega arith)))
    | inr f ↦ rw f (simp append_assoc (cookie_byte cookie 0 rest h (omega arith)))
  ]

  unfoldable pub body_2 : OpenConnectionRequest2 → Option ℕ → List ℕ
  body_2 p cookie =
      encode_proof cookie p.client_proof
      ++ (encode_addr p.server_addr ++ (encode_int 2 p.mtu ++ encode_int 8 p.client_guid))

  unfoldable pub candidate_of : OpenConnectionRequest2 → Option ℕ → Request2Candidate
  candidate_of p cookie = record {
    server_addr = p.server_addr;
    mtu = p.mtu;
    client_guid = p.client_guid;
    cookie = cookie;
    client_proof = p.client_proof;
  }

  int_last : (w v : ℕ) → v < 256 ^ w → decode_int w (encode_int w v) ≡ ok (v, [])
  int_last w v h =
      subst (λ bs. decode_int w bs ≡ ok (v, [])) (append-nil _) (decode_int-encode_int w v [] h)

  candidate_lem :
      (p : OpenConnectionRequest2) (cookie : Option ℕ)
      → IsAddr p.server_addr
      → p.client_guid < 256 ^ 8
      → p.mtu ≤ 1400
      → IsProof p cookie
      → parse_request_2_candidate (body_2 p cookie) (has_cookie cookie) true
        ≡ ok (candidate_of p cookie)
  unfolding parse_request_2_candidate body_2 candidate_of
  candidate_lem p cookie a g high c =
      let guid = encode_int 8 p.client_guid in
      simp (
        front_lem p cookie (encode_addr p.server_addr ++ (encode_int 2 p.mtu ++ guid)) c,
        decode_addr-encode_addr p.server_addr (encode_int 2 p.mtu ++ guid) a,
        decode_int-encode_int 2 p.mtu guid (omega arith),
        int_last 8 p.client_guid g,
      )

  -- The other layout does not fit.
  other_layout :
      (body : List ℕ) (b : Bool) (c : Request2Candidate)
      → parse_request_2_candidate body b true ≡ ok c
      → (e : DecodeError) × (parse_request_2_candidate body (not b) true ≡ err e)
  other_layout body b c q = elim (Result-cases (parse_request_2_candidate body (not b) true)) [
    | inr (e, q') ↦ (e, q')
    | inl (c', q') ↦ absurd (
        both b (Post_elim (parse_request_2_candidate_lem body b true) q).0
          (Post_elim (parse_request_2_candidate_lem body (not b) true) q').0)
  ]
    where
      both : (b : Bool) → IsLength (front_length b) body → IsLength (front_length (not b)) body → ⊥
      both true x y = one_length body y x
      both false x y = one_length body x y

  pub parse_request_2_lem :
      (p : OpenConnectionRequest2) (cookie : Option ℕ)
      → IsAddr p.server_addr
      → p.client_guid < 256 ^ 8
      → p.mtu ≤ 1400
      → IsProof p cookie
      → parse_request_2 (body_2 p cookie) ≡ ok (candidate_of p cookie, p.parse_path)
  unfolding parse_request_2 choose_request_2
  parse_request_2_lem p none a g high c =
      let q = candidate_lem p none a g high c in
      let other = other_layout (body_2 p none) false (candidate_of p none) q in
      rw (q, other.1) (ap (λ path. ok (candidate_of p none, path)) (sym c.0))
  parse_request_2_lem p (some cookie) a g high c =
      let q = candidate_lem p (some cookie) a g high c in
      let other = other_layout (body_2 p (some cookie)) true (candidate_of p (some cookie)) q in
      rw (q, other.1) (ap (λ path. ok (candidate_of p (some cookie), path)) (sym c.0))
