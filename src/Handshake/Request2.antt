-- ===== src/Handshake/Request2.antt =====
-- src/handshake/open_connection.rs: the second request comes with or without a cookie, and nothing on
-- the wire says which: both layouts are tried.
use raknet_rust.Common.{
  ℕ, Bool, true, false, not, ◌&&◌, ◌||◌, ◌==◌, ltb, List, [], ◌∷◌, length, take, drop, get_or,
  Option, none, some, Result, ok, err, ◌>>=◌, ◌>>◌, fail_if, if◌then◌else◌,
}
use raknet_rust.Protocol.Errors.{DecodeError, unexpected_eof, invalid_request2_layout}
use raknet_rust.Protocol.Buffers.{BufInts}
use raknet_rust.Protocol.Primitives.{Decoded, SocketAddr, decode_addr, decode_int}
use raknet_rust.Handshake.Packets.{
  OpenConnectionRequest2, Request2ParsePath, strict_no_cookie, strict_with_cookie, legacy_heuristic,
  ambiguous_preferred_no_cookie, ambiguous_preferred_with_cookie,
}

pub record Request2Candidate : Type 0 where
  pub server_addr : SocketAddr
  pub mtu : ℕ
  pub client_guid : ℕ
  pub cookie : Option ℕ
  pub client_proof : Bool

abbrev pub into_request : Request2Candidate → List ℕ → Request2ParsePath → OpenConnectionRequest2
into_request c magic path = record {
  server_addr = c.server_addr;
  mtu = c.mtu;
  client_guid = c.client_guid;
  cookie = c.cookie;
  client_proof = c.client_proof;
  parse_path = path;
  magic = magic;
}

abbrev pub is_nil : List ℕ → Bool
is_nil [] = true
is_nil (b ∷ bs) = false

-- `matches!(body.first(), Some(4 | 6))`.
abbrev pub starts_with_version : List ℕ → Bool
starts_with_version [] = false
starts_with_version (b ∷ bs) = b == 4 || b == 6

module _ ⦃io : BufInts⦄ where
  -- The cookie and the proof in front, if they are expected.
  unfoldable pub parse_cookie : Bool → Bool → List ℕ → Decoded (Option ℕ × Bool)
  parse_cookie false strict_bool body = ok ((none, false), body)
  parse_cookie true strict_bool body = do
    fail_if (ltb (length body) 5) unexpected_eof
    let raw_proof = get_or body 4 0
    fail_if (strict_bool && ltb 1 raw_proof) invalid_request2_layout
    ok ((some (io.get_be (take 4 body)), raw_proof == 1), drop 5 body)

  unfoldable pub parse_request_2_candidate :
      List ℕ → Bool → Bool → Result DecodeError Request2Candidate
  parse_request_2_candidate body with_cookie strict_bool = do
    (front, body) ← parse_cookie with_cookie strict_bool body
    (server_addr, body) ← decode_addr body
    (mtu, body) ← decode_int 2 body
    (client_guid, body) ← decode_int 8 body
    fail_if (not (is_nil body)) invalid_request2_layout
    ok record {
      server_addr = server_addr;
      mtu = mtu;
      client_guid = client_guid;
      cookie = front.0;
      client_proof = front.1;
    }

  -- A body that begins with neither version of an address is taken to begin with a cookie.
  abbrev pub seems_cookie : List ℕ → Bool
  seems_cookie [] = false
  seems_cookie (first ∷ body) = not (first == 4) && not (first == 6)

  unfoldable pub parse_request_2_legacy : List ℕ → Result DecodeError Request2Candidate
  parse_request_2_legacy body = parse_request_2_candidate body (seems_cookie body) false

  unfoldable pub choose_request_2 :
      List ℕ
      → Result DecodeError Request2Candidate
      → Result DecodeError Request2Candidate
      → Result DecodeError (Request2Candidate × Request2ParsePath)
  choose_request_2 body (ok candidate) (err e) = ok (candidate, strict_no_cookie)
  choose_request_2 body (err e) (ok candidate) = ok (candidate, strict_with_cookie)
  choose_request_2 body (ok no_cookie) (ok with_cookie) =
      if starts_with_version body
      then ok (no_cookie, ambiguous_preferred_no_cookie)
      else ok (with_cookie, ambiguous_preferred_with_cookie)
  choose_request_2 body (err e) (err e') = do
    legacy ← parse_request_2_legacy body
    ok (legacy, legacy_heuristic)

  unfoldable pub parse_request_2 :
      List ℕ → Result DecodeError (Request2Candidate × Request2ParsePath)
  parse_request_2 body =
      choose_request_2 body (parse_request_2_candidate body false true)
        (parse_request_2_candidate body true true)
