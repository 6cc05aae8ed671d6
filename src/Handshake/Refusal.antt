-- ===== src/Handshake/Refusal.antt =====
-- Which offline packets are not written.
use raknet_rust.Common.{
  ℕ, ◌<◌, ◌≡◌, ◌⊎◌, ◌↔◌, inl, inr, false, ◌||◌, ltb, List, length, ◌∷◌, ◌++◌, ok, err, ◌>>=◌, ◌>>◌,
  Bool-cases, arith,
}
use raknet_rust.Protocol.Constants.{minimum_mtu_size, maximum_mtu_size}
use raknet_rust.Protocol.Errors.{EncodeError, invalid_mtu, offline_pong_motd_too_long}
use raknet_rust.Protocol.Buffers.{BufInts}
use raknet_rust.Protocol.Primitives.{encode_u8}
use raknet_rust.Handshake.Packets.{
  OfflinePacket, unconnected_ping, unconnected_ping_open_connections, unconnected_pong,
  open_connection_request_1, open_connection_reply_1, open_connection_request_2,
  open_connection_reply_2, incompatible_protocol_version, connection_request_failed,
  already_connected, no_free_incoming_connections, connection_banned, ip_recently_connected,
}
use raknet_rust.Handshake.Encode.{
  validate_mtu, validate_unconnected_pong_motd_len, encode_pong, encode_body, encode_offline,
}

abbrev pub IsMtuError : ℕ → EncodeError → Type 0
IsMtuError mtu e = ((mtu < 576) ⊎ (1400 < mtu)) × (e ≡ invalid_mtu mtu)

-- The packet is not written, and this is why.
abbrev pub IsRefused : OfflinePacket → EncodeError → Type 0
IsRefused (unconnected_pong p) e =
    (32767 < length p.motd) × (e ≡ offline_pong_motd_too_long (length p.motd))
IsRefused (open_connection_request_1 p) e = IsMtuError p.mtu e
IsRefused (open_connection_reply_1 p) e = IsMtuError p.mtu e
IsRefused (open_connection_request_2 p) e = IsMtuError p.mtu e
IsRefused (open_connection_reply_2 p) e = IsMtuError p.mtu e
IsRefused _ e = ⊥

written : (id : ℕ) (body : List ℕ) (e : EncodeError) → (ok (id ∷ body) ≡ err e) ↔ ⊥
written id body e = (λ h. cc, λ h. absurd h)

mtu_refused :
    (mtu id : ℕ) (body : List ℕ) (e : EncodeError)
    → (((validate_mtu mtu >> ok body) >>= λ bs. ok (encode_u8 id ++ bs)) ≡ err e) ↔ IsMtuError mtu e
unfolding encode_u8 validate_mtu
mtu_refused mtu id body e =
    elim (Bool-cases (ltb mtu minimum_mtu_size || ltb maximum_mtu_size mtu)) [
      | inl t ↦ ground arith
      | inr f ↦ ground arith
    ]

module _ ⦃io : BufInts⦄ where
  -- Encoding an offline packet fails for two reasons and no other: the MTU of a request or a reply is
  -- below 576 or above 1400, or the text of a pong is longer than 32767 bytes. The error names the
  -- number.
  pub encode_offline-IsRefused :
      (p : OfflinePacket) (e : EncodeError) → (encode_offline p ≡ err e) ↔ IsRefused p e
  unfolding encode_offline encode_body encode_pong encode_u8 validate_unconnected_pong_motd_len
  encode_offline-IsRefused (unconnected_ping p) e = written _ _ e
  encode_offline-IsRefused (unconnected_ping_open_connections p) e = written _ _ e
  encode_offline-IsRefused (unconnected_pong p) e = elim (Bool-cases (ltb 32767 (length p.motd))) [
    | inl t ↦ ground arith
    | inr f ↦ let fits : ltb 65535 (length p.motd) ≡ false = ground arith in ground arith
  ]
  encode_offline-IsRefused (open_connection_request_1 p) e = mtu_refused p.mtu _ _ e
  encode_offline-IsRefused (open_connection_reply_1 p) e = mtu_refused p.mtu _ _ e
  encode_offline-IsRefused (open_connection_request_2 p) e = mtu_refused p.mtu _ _ e
  encode_offline-IsRefused (open_connection_reply_2 p) e = mtu_refused p.mtu _ _ e
  encode_offline-IsRefused (incompatible_protocol_version p) e = written _ _ e
  encode_offline-IsRefused (connection_request_failed p) e = written _ _ e
  encode_offline-IsRefused (already_connected p) e = written _ _ e
  encode_offline-IsRefused (no_free_incoming_connections p) e = written _ _ e
  encode_offline-IsRefused (connection_banned p) e = written _ _ e
  encode_offline-IsRefused (ip_recently_connected p) e = written _ _ e
