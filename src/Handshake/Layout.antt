-- ===== src/Handshake/Layout.antt =====
-- How long the body of a second request is, by its layout, and why no body has both.
use raknet_rust.Common.{
  ℕ, ◌+◌, ◌≡◌, refl, ◌⊎◌, inl, inr, Bool, true, false, not, ◌&&◌, ltb, List, [], ◌∷◌, length,
  get_or, length-drop, Option, none, some, ok, err, Post, returns, fails, Post-bind, Post-mono,
  Post-fail_if, Post_elim, Post-self, Post-any, Result-cases, Bool-cases, arith,
}
use raknet_rust.Protocol.Errors.{DecodeError, unexpected_eof, invalid_request2_layout}
use raknet_rust.Protocol.Buffers.{BufInts}
use raknet_rust.Protocol.Primitives.{decode_int, decode_addr}
use raknet_rust.Protocol.Primitives.Taken.{Took, decode_int-Took, decode_addr-Took}
use raknet_rust.Handshake.Packets.{
  Request2ParsePath, strict_no_cookie, strict_with_cookie, legacy_heuristic,
  ambiguous_preferred_no_cookie, ambiguous_preferred_with_cookie,
}
use raknet_rust.Handshake.Request2.{
  Request2Candidate, is_nil, parse_cookie, parse_request_2_candidate, seems_cookie,
  parse_request_2_legacy, choose_request_2, parse_request_2,
}

abbrev HasCookie : Option ℕ → Type 0
HasCookie none = ⊥
HasCookie (some cookie) = Unit {0}

-- A body with these many bytes before the address: 17 bytes follow with an IPv4 address, 39 with IPv6.
abbrev pub IsLength : ℕ → List ℕ → Type 0
IsLength n body = (length body ≡ n + 17) ⊎ (length body ≡ n + 39)

abbrev pub front_length : Bool → ℕ
front_length false = 0
front_length true = 5

abbrev IsFront : Bool → Option ℕ × Bool → Type 0
IsFront false front = (front.0 ≡ none) × (front.1 ≡ false)
IsFront true front = HasCookie front.0

-- What each path says of the body and of what was read.
abbrev pub IsLayout : Request2ParsePath → List ℕ → Request2Candidate → Type 0
IsLayout strict_no_cookie body c = IsLength 0 body × (c.cookie ≡ none) × (c.client_proof ≡ false)
IsLayout strict_with_cookie body c = IsLength 5 body × HasCookie c.cookie
IsLayout legacy_heuristic body c = IsLength 5 body × HasCookie c.cookie × (c.client_proof ≡ false)
IsLayout ambiguous_preferred_no_cookie body c = ⊥
IsLayout ambiguous_preferred_with_cookie body c = ⊥

pub one_length : (body : List ℕ) → IsLength 0 body → IsLength 5 body → ⊥
one_length body (inl a) (inl b) = omega arith
one_length body (inl a) (inr b) = omega arith
one_length body (inr a) (inl b) = omega arith
one_length body (inr a) (inr b) = omega arith

is_nil→length : (xs : List ℕ) → not (is_nil xs) ≡ false → length xs ≡ 0
is_nil→length [] h = refl
is_nil→length (x ∷ xs) h = cc

module _ ⦃io : BufInts⦄ where
  parse_cookie_lem :
      (with_cookie strict_bool : Bool) (body : List ℕ)
      → Post
          (λ p. IsFront with_cookie p.0 × Took (front_length with_cookie) body p.1)
          (parse_cookie with_cookie strict_bool body)
  unfolding parse_cookie
  parse_cookie_lem false strict_bool body = returns ((refl, refl), omega arith)
  parse_cookie_lem true strict_bool body =
      Post-fail_if (ltb (length body) 5) unexpected_eof _ λ enough.
        Post-fail_if (strict_bool && ltb 1 (get_or body 4 0)) invalid_request2_layout _
          λ proof. returns (tt, ground (arith, length-drop 5 body))

  -- A candidate takes the whole body, and its length is that of one of the two kinds of address.
  pub parse_request_2_candidate_lem :
      (body : List ℕ) (with_cookie strict_bool : Bool)
      → Post
          (λ c.
            IsLength (front_length with_cookie) body
            × IsFront with_cookie (c.cookie, c.client_proof))
          (parse_request_2_candidate body with_cookie strict_bool)
  unfolding parse_request_2_candidate
  parse_request_2_candidate_lem body with_cookie strict_bool =
      Post-bind _ (parse_cookie_lem with_cookie strict_bool body) λ front f.
        Post-bind _ (decode_addr-Took front.1) λ addr a.
          Post-bind _ (decode_int-Took 2 addr.1) λ mtu m.
            Post-bind _ (decode_int-Took 8 mtu.1) λ guid g.
              Post-fail_if (not (is_nil guid.1)) invalid_request2_layout _ λ all.
                let none_left = is_nil→length guid.1 all in
                returns (elim a [ inl four ↦ inl (omega arith) | inr six ↦ inr (omega arith) ], f.0)

  raw_proof_lem :
      (body : List ℕ)
      → ltb 1 (get_or body 4 0) ≡ true
      → Post (λ p. p.0.1 ≡ false) (parse_cookie true false body)
  unfolding parse_cookie
  raw_proof_lem body big =
      Post-fail_if (ltb (length body) 5) unexpected_eof _ λ enough. returns (ground arith)

  same_front :
      (body : List ℕ)
      → ltb 1 (get_or body 4 0) ≡ false
      → parse_cookie true true body ≡ parse_cookie true false body
  unfolding parse_cookie
  same_front body small = rw small refl

  -- Without the test of the proof, the parser reads what the strict one does, or an unset proof.
  lenient_proof :
      (body : List ℕ)
      → Post
          (λ c. (parse_request_2_candidate body true true ≡ ok c) ⊎ (c.client_proof ≡ false))
          (parse_request_2_candidate body true false)
  unfolding parse_request_2_candidate
  lenient_proof body = elim (Bool-cases (ltb 1 (get_or body 4 0))) [
    | inl big ↦ Post-bind _ (raw_proof_lem body big) λ front f.
        Post-bind _ (Post-any (decode_addr front.1)) λ addr a.
          Post-bind _ (Post-any (decode_int 2 addr.1)) λ mtu m.
            Post-bind _ (Post-any (decode_int 8 mtu.1)) λ guid g.
              Post-fail_if (not (is_nil guid.1)) invalid_request2_layout _ λ all. returns (inr f)
    | inr small ↦ rw (same_front body small) (Post-mono (Post-self _) λ c e. inl e)
  ]

  plain_lenient :
      (body : List ℕ)
      → parse_request_2_candidate body false false ≡ parse_request_2_candidate body false true
  unfolding parse_request_2_candidate parse_cookie
  plain_lenient body = refl

  legacy_with_cookie :
      (body : List ℕ) (e : DecodeError)
      → parse_request_2_candidate body true true ≡ err e
      → Post (IsLayout legacy_heuristic body) (parse_request_2_candidate body true false)
  legacy_with_cookie body e strict =
      elim (Result-cases (parse_request_2_candidate body true false)) [
        | inr (e', q) ↦ rw q fails
        | inl (c, q) ↦
            let front = Post_elim (parse_request_2_candidate_lem body true false) q in
            let proof : c.client_proof ≡ false = elim (Post_elim (lenient_proof body) q) [
              | inl same ↦ absurd (cc)
              | inr unset ↦ unset
            ] in
            rw q (returns (front.0, front.1, proof))
      ]

  legacy_lem :
      (body : List ℕ) (e e' : DecodeError)
      → parse_request_2_candidate body false true ≡ err e
      → parse_request_2_candidate body true true ≡ err e'
      → Post (IsLayout legacy_heuristic body) (parse_request_2_legacy body)
  unfolding parse_request_2_legacy
  legacy_lem body e e' plain strict = elim (Bool-cases (seems_cookie body)) [
    | inl t ↦ rw t (legacy_with_cookie body e' strict)
    | inr f ↦ rw (f, plain_lenient body, plain) fails
  ]

  layout_lem : (body : List ℕ) → Post (λ r. IsLayout r.1 body r.0) (parse_request_2 body)
  unfolding parse_request_2 choose_request_2
  layout_lem body =
      let plain = parse_request_2_candidate_lem body false true in
      let cookie = parse_request_2_candidate_lem body true true in
      elim (Result-cases (parse_request_2_candidate body false true)) [
        | inl (c, q) ↦ elim (Result-cases (parse_request_2_candidate body true true)) [
          | inl (c', q') ↦ absurd (one_length body (Post_elim plain q).0 (Post_elim cookie q').0)
          | inr (e', q') ↦ let h = Post_elim plain q in rw (q, q') (returns (h.0, h.1.0, h.1.1))
        ]
        | inr (e, q) ↦ elim (Result-cases (parse_request_2_candidate body true true)) [
          | inl (c', q') ↦ rw (q, q') (returns (Post_elim cookie q'))
          | inr (e', q') ↦ rw (q, q') (Post-bind _ (legacy_lem body e e' q q') λ c h. returns h)
        ]
      ]

  -- A body that is read as a second request is read on one of three paths: 17 or 39 bytes without a
  -- cookie and with the proof unset; 22 or 44 bytes with a cookie; 22 or 44 bytes with a cookie and
  -- the proof unset, on the path of old clients. It is never ambiguous.
  pub parse_request_2-IsLayout :
      (body : List ℕ) (c : Request2Candidate) (path : Request2ParsePath)
      → parse_request_2 body ≡ ok (c, path)
      → IsLayout path body c
  parse_request_2-IsLayout body c path e = Post_elim (layout_lem body) e
