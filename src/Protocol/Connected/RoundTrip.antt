-- ===== src/Protocol/Connected/RoundTrip.antt =====
-- A control packet on the wire.
use raknet_rust.Common.{
  ℕ, zero, suc, ◌≡◌, refl, List, [], ◌∷◌, ◌++◌, length, none, some, ok, All, append_assoc, arith,
}
use raknet_rust.Protocol.Buffers.{BufInts}
use raknet_rust.Protocol.Primitives.{
  SocketAddr, IsAddr, encode_u8, decode_u8, encode_int, encode_bool,
}
use raknet_rust.Protocol.Primitives.RoundTrip.{
  decode_int-encode_int, decode_addr-encode_addr, decode_bool-encode_bool,
}
use raknet_rust.Protocol.Connected.{
  Accepted, Incoming, ConnectedControlPacket, connected_ping, connected_pong, connection_request,
  connection_request_accepted, new_incoming_connection, disconnection_notification,
  detect_lost_connection, IsPacket, packet_id, encode_addrs, decode_addrs, decode_ping, decode_pong,
  decode_request, decode_accepted, decode_incoming, decode_disconnection, encode_fields,
  decode_fields, encode_control, decode_control,
}

-- A notification without a reason is the last thing in its source.
abbrev pub Ends : ConnectedControlPacket → List ℕ → Type 0
Ends (disconnection_notification none) rest = rest ≡ []
Ends _ rest = Unit {0}

module _ ⦃io : BufInts⦄ where
  decode_addrs-encode_addrs :
      (n : ℕ) (addrs : List SocketAddr) (rest : List ℕ)
      → All IsAddr addrs
      → length addrs ≡ n
      → decode_addrs n (encode_addrs addrs ++ rest) ≡ ok (addrs, rest)
  unfolding decode_addrs encode_addrs
  decode_addrs-encode_addrs zero [] rest h e = refl
  decode_addrs-encode_addrs zero (a ∷ addrs) rest h e = absurd (omega (arith, e))
  decode_addrs-encode_addrs (suc n) [] rest h e = absurd (omega (arith, e))
  decode_addrs-encode_addrs (suc n) (a ∷ addrs) rest h e = simp (
    append_assoc,
    decode_addr-encode_addr a (encode_addrs addrs ++ rest) h.0,
    decode_addrs-encode_addrs n addrs rest h.1 (omega (arith, e)),
  )

  accepted_lem :
      (p : Accepted) (rest : List ℕ)
      → IsPacket (connection_request_accepted p)
      → decode_accepted (encode_fields (connection_request_accepted p) ++ rest)
        ≡ ok (connection_request_accepted p, rest)
  unfolding decode_accepted encode_fields
  accepted_lem p rest (a, i, (s, n), t, u) =
      let times = encode_int 8 p.request_time ++ (encode_int 8 p.accepted_time ++ rest) in
      let addrs = encode_addrs p.internal_addrs ++ times in
      simp (
        append_assoc,
        decode_addr-encode_addr p.client_addr (encode_int 2 p.system_index ++ addrs) a,
        decode_int-encode_int 2 p.system_index addrs i,
        decode_addrs-encode_addrs 10 p.internal_addrs times s n,
        decode_int-encode_int 8 p.request_time (encode_int 8 p.accepted_time ++ rest) t,
        decode_int-encode_int 8 p.accepted_time rest u,
      )

  incoming_lem :
      (p : Incoming) (rest : List ℕ)
      → IsPacket (new_incoming_connection p)
      → decode_incoming (encode_fields (new_incoming_connection p) ++ rest)
        ≡ ok (new_incoming_connection p, rest)
  unfolding decode_incoming encode_fields
  incoming_lem p rest (a, (s, n), t, u) =
      let times = encode_int 8 p.request_time ++ (encode_int 8 p.accepted_time ++ rest) in
      simp (
        append_assoc,
        decode_addr-encode_addr p.server_addr (encode_addrs p.internal_addrs ++ times) a,
        decode_addrs-encode_addrs 10 p.internal_addrs times s n,
        decode_int-encode_int 8 p.request_time (encode_int 8 p.accepted_time ++ rest) t,
        decode_int-encode_int 8 p.accepted_time rest u,
      )

  -- A control packet whose fields fit their types is decoded from its bytes, and what follows it stays
  -- in the source, except that nothing may follow a disconnection notification without a reason.
  pub decode_control-encode_control :
      (p : ConnectedControlPacket) (rest : List ℕ)
      → IsPacket p
      → Ends p rest
      → decode_control (encode_control p ++ rest) ≡ ok (p, rest)
  unfolding decode_control encode_control packet_id decode_fields encode_fields decode_ping
      decode_pong decode_request decode_disconnection encode_u8 decode_u8
  decode_control-encode_control (connected_ping ping) rest h e =
      simp (decode_int-encode_int 8 ping rest h)
  decode_control-encode_control (connected_pong ping pong) rest h e = simp (
    append_assoc,
    decode_int-encode_int 8 ping (encode_int 8 pong ++ rest) h.0,
    decode_int-encode_int 8 pong rest h.1,
  )
  decode_control-encode_control (connection_request guid time encrypted) rest h e =
      let flag = encode_bool encrypted ++ rest in
      simp (
        append_assoc,
        decode_int-encode_int 8 guid (encode_int 8 time ++ flag) h.0,
        decode_int-encode_int 8 time flag h.1,
        decode_bool-encode_bool encrypted rest,
      )
  decode_control-encode_control (connection_request_accepted p) rest h e = accepted_lem p rest h
  decode_control-encode_control (new_incoming_connection p) rest h e = incoming_lem p rest h
  decode_control-encode_control (disconnection_notification none) rest h e = simp e
  decode_control-encode_control (disconnection_notification (some reason)) rest h e = refl
  decode_control-encode_control detect_lost_connection rest h e = refl
