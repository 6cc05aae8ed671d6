-- ===== src/Handshake/Packets.antt =====
-- The offline packets of src/handshake/: mod.rs, offline.rs, open_connection.rs, reject.rs and
-- incompatible.rs. A magic is the list of its 16 bytes, an `i64` is its bit pattern.
use raknet_rust.Common.{ℕ, Bool, List, Option}
use raknet_rust.Protocol.Primitives.{SocketAddr}

pub record UnconnectedPing : Type 0 where
  pub ping_time : ℕ
  pub client_guid : ℕ
  pub magic : List ℕ

pub record UnconnectedPong : Type 0 where
  pub ping_time : ℕ
  pub server_guid : ℕ
  pub magic : List ℕ
  pub motd : List ℕ

pub record OpenConnectionRequest1 : Type 0 where
  pub protocol_version : ℕ
  pub mtu : ℕ
  pub magic : List ℕ

pub record OpenConnectionReply1 : Type 0 where
  pub server_guid : ℕ
  pub mtu : ℕ
  pub cookie : Option ℕ
  pub magic : List ℕ

pub data Request2ParsePath : Type 0 where
  strict_no_cookie strict_with_cookie legacy_heuristic : Request2ParsePath
  ambiguous_preferred_no_cookie ambiguous_preferred_with_cookie : Request2ParsePath

pub record OpenConnectionRequest2 : Type 0 where
  pub server_addr : SocketAddr
  pub mtu : ℕ
  pub client_guid : ℕ
  pub cookie : Option ℕ
  pub client_proof : Bool
  pub parse_path : Request2ParsePath
  pub magic : List ℕ

pub record OpenConnectionReply2 : Type 0 where
  pub server_guid : ℕ
  pub server_addr : SocketAddr
  pub mtu : ℕ
  pub use_encryption : Bool
  pub magic : List ℕ

pub record IncompatibleProtocolVersion : Type 0 where
  pub protocol_version : ℕ
  pub server_guid : ℕ
  pub magic : List ℕ

-- The five packets of reject.rs have the same fields.
pub record Reject : Type 0 where
  pub server_guid : ℕ
  pub magic : List ℕ

pub data OfflinePacket : Type 0 where
  unconnected_ping : UnconnectedPing → OfflinePacket
  unconnected_ping_open_connections : UnconnectedPing → OfflinePacket
  unconnected_pong : UnconnectedPong → OfflinePacket
  open_connection_request_1 : OpenConnectionRequest1 → OfflinePacket
  open_connection_reply_1 : OpenConnectionReply1 → OfflinePacket
  open_connection_request_2 : OpenConnectionRequest2 → OfflinePacket
  open_connection_reply_2 : OpenConnectionReply2 → OfflinePacket
  incompatible_protocol_version : IncompatibleProtocolVersion → OfflinePacket
  connection_request_failed : Reject → OfflinePacket
  already_connected : Reject → OfflinePacket
  no_free_incoming_connections : Reject → OfflinePacket
  connection_banned : Reject → OfflinePacket
  ip_recently_connected : Reject → OfflinePacket

-- The ids of src/protocol/constants.rs.
abbrev pub offline_packet_id : OfflinePacket → ℕ
offline_packet_id (unconnected_ping p) = 0x01
offline_packet_id (unconnected_ping_open_connections p) = 0x02
offline_packet_id (unconnected_pong p) = 0x1C
offline_packet_id (open_connection_request_1 p) = 0x05
offline_packet_id (open_connection_reply_1 p) = 0x06
offline_packet_id (open_connection_request_2 p) = 0x07
offline_packet_id (open_connection_reply_2 p) = 0x08
offline_packet_id (incompatible_protocol_version p) = 0x19
offline_packet_id (connection_request_failed p) = 0x11
offline_packet_id (already_connected p) = 0x12
offline_packet_id (no_free_incoming_connections p) = 0x14
offline_packet_id (connection_banned p) = 0x17
offline_packet_id (ip_recently_connected p) = 0x1A
