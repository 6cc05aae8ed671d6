-- ===== src/Handshake/Encode.antt =====
-- src/handshake/mod.rs: the bytes of an offline packet.
use raknet_rust.Common.{
  ℕ, ◌-◌, Bool, true, false, ◌||◌, ltb, List, [], ◌++◌, length, replicate, Option, none, some,
  Result, ok, ◌>>=◌, ◌>>◌, fail_if,
}
use raknet_rust.Protocol.Errors.{EncodeError, invalid_mtu, offline_pong_motd_too_long}
use raknet_rust.Protocol.Constants.{minimum_mtu_size, maximum_mtu_size}
use raknet_rust.Protocol.Buffers.{BufInts}
use raknet_rust.Protocol.Primitives.{encode_u8, encode_bool, encode_int, encode_magic, encode_addr}
use raknet_rust.Handshake.Packets.{
  UnconnectedPing, UnconnectedPong, Reject, OfflinePacket, unconnected_ping,
  unconnected_ping_open_connections, unconnected_pong, open_connection_request_1,
  open_connection_reply_1, open_connection_request_2, open_connection_reply_2,
  incompatible_protocol_version, connection_request_failed, already_connected,
  no_free_incoming_connections, connection_banned, ip_recently_connected, offline_packet_id,
}

abbrev pub max_unconnected_pong_motd_bytes : ℕ
max_unconnected_pong_motd_bytes = 32767

unfoldable pub validate_mtu : ℕ → Result EncodeError (Unit {0})
validate_mtu mtu = fail_if (ltb mtu minimum_mtu_size || ltb maximum_mtu_size mtu) (invalid_mtu mtu)

unfoldable pub validate_unconnected_pong_motd_len : ℕ → Result EncodeError (Unit {0})
validate_unconnected_pong_motd_len len =
    fail_if (ltb max_unconnected_pong_motd_bytes len) (offline_pong_motd_too_long len)

abbrev pub has_cookie : Option ℕ → Bool
has_cookie none = false
has_cookie (some c) = true

module _ ⦃io : BufInts⦄ where
  unfoldable pub encode_cookie : Option ℕ → List ℕ
  encode_cookie none = []
  encode_cookie (some cookie) = encode_int 4 cookie

  unfoldable pub encode_proof : Option ℕ → Bool → List ℕ
  encode_proof none client_proof = []
  encode_proof (some cookie) client_proof = encode_int 4 cookie ++ encode_bool client_proof

  unfoldable pub encode_reject : Reject → List ℕ
  encode_reject p = encode_magic p.magic ++ encode_int 8 p.server_guid

  unfoldable pub encode_ping : UnconnectedPing → List ℕ
  encode_ping p = encode_int 8 p.ping_time ++ (encode_magic p.magic ++ encode_int 8 p.client_guid)

  unfoldable pub encode_pong : UnconnectedPong → Result EncodeError (List ℕ)
  encode_pong p = do
    validate_unconnected_pong_motd_len (length p.motd)
    fail_if (ltb 65535 (length p.motd)) (offline_pong_motd_too_long (length p.motd))
    ok (
        encode_int 8 p.ping_time
        ++ (encode_int 8 p.server_guid
            ++ (encode_magic p.magic ++ (encode_int 2 (length p.motd) ++ p.motd))))

  unfoldable pub encode_body : OfflinePacket → Result EncodeError (List ℕ)
  unfolding encode_cookie encode_proof encode_reject encode_ping encode_pong
  encode_body (unconnected_ping p) = ok (encode_ping p)
  encode_body (unconnected_ping_open_connections p) = ok (encode_ping p)
  encode_body (unconnected_pong p) = encode_pong p
  encode_body (open_connection_request_1 p) = do
    validate_mtu p.mtu
    ok (encode_magic p.magic ++ (encode_u8 p.protocol_version ++ replicate (p.mtu - 18) 0))
  encode_body (open_connection_reply_1 p) = do
    validate_mtu p.mtu
    ok (
        encode_magic p.magic
        ++ (encode_int 8 p.server_guid
            ++ (encode_bool (has_cookie p.cookie)
                ++ (encode_cookie p.cookie ++ encode_int 2 p.mtu))))
  encode_body (open_connection_request_2 p) = do
    validate_mtu p.mtu
    ok (
        encode_magic p.magic
        ++ (encode_proof p.cookie p.client_proof
            ++ (encode_addr p.server_addr ++ (encode_int 2 p.mtu ++ encode_int 8 p.client_guid))))
  encode_body (open_connection_reply_2 p) = do
    validate_mtu p.mtu
    ok (
        encode_magic p.magic
        ++ (encode_int 8 p.server_guid
            ++ (encode_addr p.server_addr ++ (encode_int 2 p.mtu ++ encode_bool p.use_encryption))))
  encode_body (incompatible_protocol_version p) =
      ok (encode_u8 p.protocol_version ++ (encode_magic p.magic ++ encode_int 8 p.server_guid))
  encode_body (connection_request_failed p) = ok (encode_reject p)
  encode_body (already_connected p) = ok (encode_reject p)
  encode_body (no_free_incoming_connections p) = ok (encode_reject p)
  encode_body (connection_banned p) = ok (encode_reject p)
  encode_body (ip_recently_connected p) = ok (encode_reject p)

  unfoldable pub encode_offline : OfflinePacket → Result EncodeError (List ℕ)
  unfolding encode_body
  encode_offline p = do body ← encode_body p; ok (encode_u8 (offline_packet_id p) ++ body)
