-- ===== src/Protocol/Connected.antt =====
-- src/protocol/connected.rs: the control packets of a connection.
-- An `i64` is its bit pattern; `internal_addrs` is a list of `system_address_count` addresses.
pub mod RoundTrip
mod Tests
use raknet_rust.Common.{
  ℕ, zero, suc, ◌^◌, ◌<◌, ◌≡◌, Bool, ◌==◌, if◌then◌else◌, List, [], ◌∷◌, ◌++◌, length, Option, none,
  some, Result, ok, err, ◌>>=◌, All,
}
use raknet_rust.Protocol.Errors.{invalid_connected_packet_id}
use raknet_rust.Protocol.Buffers.{BufInts}
use raknet_rust.Protocol.Primitives.{
  Decoded, SocketAddr, IsAddr, encode_u8, decode_u8, encode_bool, decode_bool, encode_int,
  decode_int, encode_addr, decode_addr,
}

abbrev pub system_address_count : ℕ
system_address_count = 10

pub record Accepted : Type 0 where
  pub client_addr : SocketAddr
  pub system_index : ℕ
  pub internal_addrs : List SocketAddr
  pub request_time : ℕ
  pub accepted_time : ℕ

pub record Incoming : Type 0 where
  pub server_addr : SocketAddr
  pub internal_addrs : List SocketAddr
  pub request_time : ℕ
  pub accepted_time : ℕ

pub data ConnectedControlPacket : Type 0 where
  connected_ping : ℕ → ConnectedControlPacket
  connected_pong : ℕ → ℕ → ConnectedControlPacket
  connection_request : ℕ → ℕ → Bool → ConnectedControlPacket
  connection_request_accepted : Accepted → ConnectedControlPacket
  new_incoming_connection : Incoming → ConnectedControlPacket
  disconnection_notification : Option ℕ → ConnectedControlPacket
  detect_lost_connection : ConnectedControlPacket

unfoldable pub packet_id : ConnectedControlPacket → ℕ
packet_id (connected_ping ping) = 0x00
packet_id (connected_pong ping pong) = 0x03
packet_id (connection_request guid time encrypted) = 0x09
packet_id (connection_request_accepted p) = 0x10
packet_id (new_incoming_connection p) = 0x13
packet_id (disconnection_notification reason) = 0x15
packet_id detect_lost_connection = 0x04

abbrev pub IsTime : ℕ → Type 0
IsTime t = t < 256 ^ 8

abbrev pub IsAddrs : List SocketAddr → Type 0
IsAddrs addrs = All IsAddr addrs × (length addrs ≡ system_address_count)

-- The fields fit their types.
abbrev pub IsPacket : ConnectedControlPacket → Type 0
IsPacket (connected_ping ping) = IsTime ping
IsPacket (connected_pong ping pong) = IsTime ping × IsTime pong
IsPacket (connection_request guid time encrypted) = IsTime guid × IsTime time
IsPacket (connection_request_accepted p) =
    IsAddr p.client_addr
    × (p.system_index < 256 ^ 2)
    × IsAddrs p.internal_addrs
    × IsTime p.request_time
    × IsTime p.accepted_time
IsPacket (new_incoming_connection p) =
    IsAddr p.server_addr × IsAddrs p.internal_addrs × IsTime p.request_time × IsTime p.accepted_time
IsPacket (disconnection_notification reason) = Unit {0}
IsPacket detect_lost_connection = Unit {0}

module _ ⦃io : BufInts⦄ where
  encode_addrs : List SocketAddr → List ℕ
  encode_addrs [] = []
  encode_addrs (a ∷ addrs) = encode_addr a ++ encode_addrs addrs

  encode_fields : ConnectedControlPacket → List ℕ
  unfolding encode_addrs
  encode_fields (connected_ping ping) = encode_int 8 ping
  encode_fields (connected_pong ping pong) = encode_int 8 ping ++ encode_int 8 pong
  encode_fields (connection_request guid time encrypted) =
      encode_int 8 guid ++ (encode_int 8 time ++ encode_bool encrypted)
  encode_fields (connection_request_accepted p) =
      encode_addr p.client_addr
      ++ (encode_int 2 p.system_index
          ++ (encode_addrs p.internal_addrs
              ++ (encode_int 8 p.request_time ++ encode_int 8 p.accepted_time)))
  encode_fields (new_incoming_connection p) =
      encode_addr p.server_addr
      ++ (encode_addrs p.internal_addrs
          ++ (encode_int 8 p.request_time ++ encode_int 8 p.accepted_time))
  encode_fields (disconnection_notification none) = []
  encode_fields (disconnection_notification (some reason)) = encode_u8 reason
  encode_fields detect_lost_connection = []

  unfoldable pub encode_control : ConnectedControlPacket → List ℕ
  unfolding encode_fields
  encode_control p = encode_u8 (packet_id p) ++ encode_fields p

  decode_addrs : ℕ → List ℕ → Decoded (List SocketAddr)
  decode_addrs zero src = ok ([], src)
  decode_addrs (suc n) src = do
    (a, src) ← decode_addr src
    (addrs, src) ← decode_addrs n src
    ok (a ∷ addrs, src)

  decode_ping : List ℕ → Decoded ConnectedControlPacket
  decode_ping src = do (ping, src) ← decode_int 8 src; ok (connected_ping ping, src)

  decode_pong : List ℕ → Decoded ConnectedControlPacket
  decode_pong src = do
    (ping, src) ← decode_int 8 src
    (pong, src) ← decode_int 8 src
    ok (connected_pong ping pong, src)

  decode_request : List ℕ → Decoded ConnectedControlPacket
  decode_request src = do
    (guid, src) ← decode_int 8 src
    (time, src) ← decode_int 8 src
    (encrypted, src) ← decode_bool src
    ok (connection_request guid time encrypted, src)

  decode_accepted : List ℕ → Decoded ConnectedControlPacket
  unfolding decode_addrs
  decode_accepted src = do
    (client, src) ← decode_addr src
    (index, src) ← decode_int 2 src
    (addrs, src) ← decode_addrs system_address_count src
    (request, src) ← decode_int 8 src
    (accepted, src) ← decode_int 8 src
    ok (
      connection_request_accepted record {
        client_addr = client;
        system_index = index;
        internal_addrs = addrs;
        request_time = request;
        accepted_time = accepted;
      },
      src,
    )

  decode_incoming : List ℕ → Decoded ConnectedControlPacket
  unfolding decode_addrs
  decode_incoming src = do
    (server, src) ← decode_addr src
    (addrs, src) ← decode_addrs system_address_count src
    (request, src) ← decode_int 8 src
    (accepted, src) ← decode_int 8 src
    ok (
      new_incoming_connection record {
        server_addr = server;
        internal_addrs = addrs;
        request_time = request;
        accepted_time = accepted;
      },
      src,
    )

  -- The reason is there if anything remains in the source.
  decode_disconnection : List ℕ → Decoded ConnectedControlPacket
  decode_disconnection [] = ok (disconnection_notification none, [])
  decode_disconnection (reason ∷ src) = ok (disconnection_notification (some reason), src)

  decode_fields : ℕ → List ℕ → Decoded ConnectedControlPacket
  unfolding decode_ping decode_pong decode_request decode_accepted decode_incoming
      decode_disconnection
  decode_fields id src =
      if id == 0x00
      then decode_ping src
      else if id == 0x03
      then decode_pong src
      else if id == 0x09
      then decode_request src
      else if id == 0x10
      then decode_accepted src
      else if id == 0x13
      then decode_incoming src
      else if id == 0x15
      then decode_disconnection src
      else if id == 0x04
      then ok (detect_lost_connection, src)
      else err (invalid_connected_packet_id id)

  unfoldable pub decode_control : List ℕ → Decoded ConnectedControlPacket
  unfolding decode_fields
  decode_control src = do (id, src) ← decode_u8 src; decode_fields id src
