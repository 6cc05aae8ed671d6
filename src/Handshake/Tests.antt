-- ===== src/Handshake/Tests.antt =====
-- The handshake's theorems at concrete packets.
use raknet_rust.Common.{
  ℕ, ◌≡◌, ◌↔◌, refl, false, List, [], ◌∷◌, ◌++◌, replicate, none, some, ok, err, arith,
}
use raknet_rust.Protocol.Errors.{invalid_mtu}
use raknet_rust.Protocol.Buffers.Reference.{reference}
use raknet_rust.Protocol.Primitives.{
  SocketAddr, v4, encode_int, encode_magic, encode_u8, decode_int, encode_addr, decode_addr,
}
use raknet_rust.Handshake.Packets.{
  OfflinePacket, open_connection_request_2, open_connection_reply_1, strict_no_cookie,
}
use raknet_rust.Handshake.Request2.{
  Request2Candidate, parse_cookie, parse_request_2_candidate, choose_request_2, parse_request_2,
}
use raknet_rust.Handshake.Layout.{IsLayout, parse_request_2-IsLayout}
use raknet_rust.Handshake.Encode.{encode_proof, encode_body, encode_offline, validate_mtu}
use raknet_rust.Handshake.Decode.{decode_with_magic}
use raknet_rust.Handshake.RoundTrip.{decode_with_magic-encode_offline}
use raknet_rust.Handshake.Refusal.{IsRefused, encode_offline-IsRefused}

abbrev magic : List ℕ
magic = replicate 16 7

abbrev address : SocketAddr
address = v4 10 0 0 1 19132

abbrev request : OfflinePacket
request = open_connection_request_2 record {
  server_addr = address;
  mtu = 1200;
  client_guid = 5;
  cookie = none;
  client_proof = false;
  parse_path = strict_no_cookie;
  magic = magic;
}

abbrev body : List ℕ
body = 4 ∷ 245 ∷ 255 ∷ 255 ∷ 254 ∷ 74 ∷ 188 ∷ 4 ∷ 176 ∷ (replicate 7 0 ++ (5 ∷ []))

encode_request : encode_offline request ≡ ok (0x07 ∷ (magic ++ body))
unfolding encode_offline encode_body encode_proof encode_addr encode_int encode_magic encode_u8
    validate_mtu
encode_request = refl

decode_with_magic-encode_offline_request :
    decode_with_magic magic ((0x07 ∷ (magic ++ body)) ++ []) ≡ ok (request, [])
decode_with_magic-encode_offline_request =
    decode_with_magic-encode_offline request (0x07 ∷ (magic ++ body)) [] refl
      (
        (omega arith, omega arith, omega arith, omega arith, omega arith),
        ground arith,
        (refl, refl),
      )
      refl encode_request

abbrev candidate : Request2Candidate
candidate = record {
  server_addr = address;
  mtu = 1200;
  client_guid = 5;
  cookie = none;
  client_proof = false;
}

parse_body : parse_request_2 body ≡ ok (candidate, strict_no_cookie)
unfolding parse_request_2 choose_request_2 parse_request_2_candidate parse_cookie decode_addr
    decode_int
parse_body = refl

parse_request_2-IsLayout_plain : IsLayout strict_no_cookie body candidate
parse_request_2-IsLayout_plain = parse_request_2-IsLayout body candidate strict_no_cookie parse_body

abbrev short_reply : OfflinePacket
short_reply =
    open_connection_reply_1 record { server_guid = 1; mtu = 500; cookie = some 9; magic = magic }

encode_offline-IsRefused_short :
    (encode_offline short_reply ≡ err (invalid_mtu 500)) ↔ IsRefused short_reply (invalid_mtu 500)
encode_offline-IsRefused_short = encode_offline-IsRefused short_reply (invalid_mtu 500)
