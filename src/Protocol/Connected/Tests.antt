-- ===== src/Protocol/Connected/Tests.antt =====
-- The round trip at a concrete control packet.
use raknet_rust.Common.{◌≡◌, refl, [], ◌∷◌, ◌++◌, ok, replicate, arith}
use raknet_rust.Protocol.Buffers.Reference.{reference}
use raknet_rust.Protocol.Primitives.{SocketAddr, v4}
use raknet_rust.Protocol.Connected.{
  ConnectedControlPacket, new_incoming_connection, encode_control, decode_control,
}
use raknet_rust.Protocol.Connected.RoundTrip.{decode_control-encode_control}

abbrev home : SocketAddr
home = v4 127 0 0 1 19132

abbrev packet : ConnectedControlPacket
packet = new_incoming_connection record {
  server_addr = home;
  internal_addrs = replicate 10 home;
  request_time = 1000;
  accepted_time = 1001;
}

decode_control-encode_control_incoming :
    decode_control (encode_control packet ++ (1 ∷ [])) ≡ ok (packet, 1 ∷ [])
decode_control-encode_control_incoming =
    decode_control-encode_control packet (1 ∷ [])
      (ground arith, (ground arith, refl), ground arith, ground arith) tt
