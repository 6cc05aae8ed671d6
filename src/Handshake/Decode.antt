-- ===== src/Handshake/Decode.antt =====
-- The decoders of src/handshake/ and the registry of mod.rs, which chooses one by the id.
use raknet_rust.Common.{
  ℕ, ◌+◌, ◌%◌, ◌^◌, Bool, true, false, not, ◌&&◌, ◌==◌, if◌then◌else◌, List, [], ◌∷◌, length,
  Option, none, some, Result, ok, err, ◌>>=◌, ◌>>◌, fail_if,
}
use raknet_rust.Protocol.Errors.{DecodeError, invalid_magic, invalid_offline_packet_id}
use raknet_rust.Protocol.Constants.{default_unconnected_magic}
use raknet_rust.Protocol.Buffers.{BufInts}
use raknet_rust.Protocol.Primitives.{
  Decoded, decode_u8, decode_bool, decode_bytes, decode_int, decode_magic, decode_addr,
}
use raknet_rust.Handshake.Packets.{
  UnconnectedPing, UnconnectedPong, OpenConnectionRequest1, OpenConnectionReply1,
  OpenConnectionRequest2, OpenConnectionReply2, IncompatibleProtocolVersion, Reject, OfflinePacket,
  unconnected_ping, unconnected_ping_open_connections, unconnected_pong, open_connection_request_1,
  open_connection_reply_1, open_connection_request_2, open_connection_reply_2,
  incompatible_protocol_version, connection_request_failed, already_connected,
  no_free_incoming_connections, connection_banned, ip_recently_connected,
}
use raknet_rust.Handshake.Request2.{into_request, parse_request_2}

abbrev pub same_bytes : List ℕ → List ℕ → Bool
same_bytes [] [] = true
same_bytes [] (b ∷ ys) = false
same_bytes (a ∷ xs) [] = false
same_bytes (a ∷ xs) (b ∷ ys) = a == b && same_bytes xs ys

unfoldable pub validate_magic : List ℕ → List ℕ → Result DecodeError (List ℕ)
validate_magic magic expected = fail_if (not (same_bytes magic expected)) invalid_magic >> ok magic

module _ ⦃io : BufInts⦄ where
  unfoldable pub decode_ping : List ℕ → List ℕ → Decoded UnconnectedPing
  unfolding validate_magic
  decode_ping expected src = do
    (ping_time, src) ← decode_int 8 src
    (read, src) ← decode_magic src
    magic ← validate_magic read expected
    (client_guid, src) ← decode_int 8 src
    ok (record { ping_time = ping_time; client_guid = client_guid; magic = magic }, src)

  unfoldable pub decode_pong : List ℕ → List ℕ → Decoded UnconnectedPong
  unfolding validate_magic
  decode_pong expected src = do
    (ping_time, src) ← decode_int 8 src
    (server_guid, src) ← decode_int 8 src
    (read, src) ← decode_magic src
    magic ← validate_magic read expected
    (motd_len, src) ← decode_int 2 src
    (motd, src) ← decode_bytes motd_len src
    ok (
      record { ping_time = ping_time; server_guid = server_guid; magic = magic; motd = motd },
      src,
    )

  -- What remains is the padding.
  unfoldable pub decode_request_1 : List ℕ → List ℕ → Decoded OpenConnectionRequest1
  unfolding validate_magic
  decode_request_1 expected src = do
    (read, src) ← decode_magic src
    magic ← validate_magic read expected
    (protocol_version, src) ← decode_u8 src
    ok (
      record {
        protocol_version = protocol_version;
        mtu = (length src + 18) % 2 ^ 16;
        magic = magic;
      },
      [],
    )

  unfoldable pub decode_cookie : Bool → List ℕ → Decoded (Option ℕ)
  decode_cookie false src = ok (none, src)
  decode_cookie true src = do (cookie, src) ← decode_int 4 src; ok (some cookie, src)

  unfoldable pub decode_reply_1 : List ℕ → List ℕ → Decoded OpenConnectionReply1
  unfolding validate_magic
  decode_reply_1 expected src = do
    (read, src) ← decode_magic src
    magic ← validate_magic read expected
    (server_guid, src) ← decode_int 8 src
    (has_cookie, src) ← decode_bool src
    (cookie, src) ← decode_cookie has_cookie src
    (mtu, src) ← decode_int 2 src
    ok (record { server_guid = server_guid; mtu = mtu; cookie = cookie; magic = magic }, src)

  unfoldable pub decode_request_2 : List ℕ → List ℕ → Decoded OpenConnectionRequest2
  unfolding validate_magic
  decode_request_2 expected src = do
    (read, body) ← decode_magic src
    magic ← validate_magic read expected
    (candidate, path) ← parse_request_2 body
    ok (into_request candidate magic path, [])

  unfoldable pub decode_reply_2 : List ℕ → List ℕ → Decoded OpenConnectionReply2
  unfolding validate_magic
  decode_reply_2 expected src = do
    (read, src) ← decode_magic src
    magic ← validate_magic read expected
    (server_guid, src) ← decode_int 8 src
    (server_addr, src) ← decode_addr src
    (mtu, src) ← decode_int 2 src
    (use_encryption, src) ← decode_bool src
    ok (
      record {
        server_guid = server_guid;
        server_addr = server_addr;
        mtu = mtu;
        use_encryption = use_encryption;
        magic = magic;
      },
      src,
    )

  unfoldable pub decode_incompatible : List ℕ → List ℕ → Decoded IncompatibleProtocolVersion
  unfolding validate_magic
  decode_incompatible expected src = do
    (protocol_version, src) ← decode_u8 src
    (read, src) ← decode_magic src
    magic ← validate_magic read expected
    (server_guid, src) ← decode_int 8 src
    ok (
      record { protocol_version = protocol_version; server_guid = server_guid; magic = magic },
      src,
    )

  unfoldable pub decode_reject_packet : List ℕ → List ℕ → Decoded Reject
  unfolding validate_magic
  decode_reject_packet expected src = do
    (read, src) ← decode_magic src
    magic ← validate_magic read expected
    (server_guid, src) ← decode_int 8 src
    ok (record { server_guid = server_guid; magic = magic }, src)

-- `Result::map` on what is decoded.
unfoldable pub decoded_as : {A : Type 0} → (A → OfflinePacket) → Decoded A → Decoded OfflinePacket
decoded_as make (ok (a, src)) = ok (make a, src)
decoded_as make (err e) = err e

module _ ⦃io : BufInts⦄ where
  unfoldable pub decode_rejection : ℕ → List ℕ → List ℕ → Decoded OfflinePacket
  decode_rejection id expected src =
      if id == 0x11
      then decoded_as connection_request_failed (decode_reject_packet expected src)
      else if id == 0x12
      then decoded_as already_connected (decode_reject_packet expected src)
      else if id == 0x14
      then decoded_as no_free_incoming_connections (decode_reject_packet expected src)
      else if id == 0x17
      then decoded_as connection_banned (decode_reject_packet expected src)
      else if id == 0x1A
      then decoded_as ip_recently_connected (decode_reject_packet expected src)
      else err (invalid_offline_packet_id id)

  unfoldable pub decode_registered : ℕ → List ℕ → List ℕ → Decoded OfflinePacket
  decode_registered id expected src =
      if id == 0x01
      then decoded_as unconnected_ping (decode_ping expected src)
      else if id == 0x02
      then decoded_as unconnected_ping_open_connections (decode_ping expected src)
      else if id == 0x1C
      then decoded_as unconnected_pong (decode_pong expected src)
      else if id == 0x05
      then decoded_as open_connection_request_1 (decode_request_1 expected src)
      else if id == 0x06
      then decoded_as open_connection_reply_1 (decode_reply_1 expected src)
      else if id == 0x07
      then decoded_as open_connection_request_2 (decode_request_2 expected src)
      else if id == 0x08
      then decoded_as open_connection_reply_2 (decode_reply_2 expected src)
      else if id == 0x19
      then decoded_as incompatible_protocol_version (decode_incompatible expected src)
      else decode_rejection id expected src

  unfoldable pub decode_with_magic : List ℕ → List ℕ → Decoded OfflinePacket
  decode_with_magic expected src = do (id, src) ← decode_u8 src; decode_registered id expected src

  unfoldable pub decode_offline : List ℕ → Decoded OfflinePacket
  decode_offline src = decode_with_magic default_unconnected_magic src
