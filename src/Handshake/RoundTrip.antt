-- ===== src/Handshake/RoundTrip.antt =====
-- An offline packet on the wire.
use raknet_rust.Common.{
  ℕ, ◌+◌, ◌-◌, ◌%◌, ◌^◌, ◌≤◌, ◌<◌, ◌≡◌, refl, ap, inl, inr, true, false, ◌||◌, ltb, List, [], ◌∷◌,
  ◌++◌, length, replicate, length-replicate, Option, none, some, ok, ◌>>=◌, ◌>>◌, Bool-cases,
  append_assoc, append-nil, ==_refl, arith,
}
use raknet_rust.Protocol.Constants.{minimum_mtu_size, maximum_mtu_size}
use raknet_rust.Protocol.Buffers.{BufInts}
use raknet_rust.Protocol.Primitives.{
  IsAddr, encode_u8, decode_u8, encode_int, encode_bool, encode_addr, encode_magic,
}
use raknet_rust.Protocol.Primitives.RoundTrip.{
  decode_int-encode_int, decode_addr-encode_addr, decode_bool-encode_bool,
  decode_magic-encode_magic, decode_bytes-append,
}
use raknet_rust.Handshake.Packets.{
  UnconnectedPing, UnconnectedPong, OpenConnectionRequest1, OpenConnectionReply1,
  OpenConnectionRequest2, OpenConnectionReply2, IncompatibleProtocolVersion, Reject, OfflinePacket,
  unconnected_ping, unconnected_ping_open_connections, unconnected_pong, open_connection_request_1,
  open_connection_reply_1, open_connection_request_2, open_connection_reply_2,
  incompatible_protocol_version, connection_request_failed, already_connected,
  no_free_incoming_connections, connection_banned, ip_recently_connected,
}
use raknet_rust.Handshake.Request2Wire.{IsProof, body_2, candidate_of, parse_request_2_lem}
use raknet_rust.Handshake.Encode.{
  has_cookie, validate_mtu, validate_unconnected_pong_motd_len, encode_cookie, encode_reject,
  encode_ping, encode_pong, encode_body, encode_offline,
}
use raknet_rust.Handshake.Decode.{
  same_bytes, validate_magic, decode_ping, decode_pong, decode_request_1, decode_cookie,
  decode_reply_1, decode_request_2, decode_reply_2, decode_incompatible, decode_reject_packet,
  decoded_as, decode_rejection, decode_registered, decode_with_magic,
}

abbrev pub magic_of : OfflinePacket → List ℕ
magic_of (unconnected_ping p) = p.magic
magic_of (unconnected_ping_open_connections p) = p.magic
magic_of (unconnected_pong p) = p.magic
magic_of (open_connection_request_1 p) = p.magic
magic_of (open_connection_reply_1 p) = p.magic
magic_of (open_connection_request_2 p) = p.magic
magic_of (open_connection_reply_2 p) = p.magic
magic_of (incompatible_protocol_version p) = p.magic
magic_of (connection_request_failed p) = p.magic
magic_of (already_connected p) = p.magic
magic_of (no_free_incoming_connections p) = p.magic
magic_of (connection_banned p) = p.magic
magic_of (ip_recently_connected p) = p.magic

abbrev pub IsCookie : Option ℕ → Type 0
IsCookie none = Unit {0}
IsCookie (some cookie) = cookie < 256 ^ 4

-- The numbers fit their types.
abbrev pub Fits : OfflinePacket → Type 0
Fits (unconnected_ping p) = (p.ping_time < 256 ^ 8) × (p.client_guid < 256 ^ 8)
Fits (unconnected_ping_open_connections p) = (p.ping_time < 256 ^ 8) × (p.client_guid < 256 ^ 8)
Fits (unconnected_pong p) = (p.ping_time < 256 ^ 8) × (p.server_guid < 256 ^ 8)
Fits (open_connection_request_1 p) = Unit {0}
Fits (open_connection_reply_1 p) = (p.server_guid < 256 ^ 8) × IsCookie p.cookie
Fits (open_connection_request_2 p) =
    IsAddr p.server_addr × (p.client_guid < 256 ^ 8) × IsProof p p.cookie
Fits (open_connection_reply_2 p) = (p.server_guid < 256 ^ 8) × IsAddr p.server_addr
Fits (incompatible_protocol_version p) = p.server_guid < 256 ^ 8
Fits (connection_request_failed p) = p.server_guid < 256 ^ 8
Fits (already_connected p) = p.server_guid < 256 ^ 8
Fits (no_free_incoming_connections p) = p.server_guid < 256 ^ 8
Fits (connection_banned p) = p.server_guid < 256 ^ 8
Fits (ip_recently_connected p) = p.server_guid < 256 ^ 8

-- The two requests take all that is in their source.
abbrev pub Ends : OfflinePacket → List ℕ → Type 0
Ends (open_connection_request_1 p) rest = rest ≡ []
Ends (open_connection_request_2 p) rest = rest ≡ []
Ends _ rest = Unit {0}

same_bytes_refl : (bs : List ℕ) → same_bytes bs bs ≡ true
same_bytes_refl [] = refl
same_bytes_refl (b ∷ bs) = rw (==_refl b, same_bytes_refl bs) refl

validate_magic_same : (magic : List ℕ) → validate_magic magic magic ≡ ok magic
unfolding validate_magic
validate_magic_same magic = rw (same_bytes_refl magic) refl

-- A packet that is encoded has a valid MTU.
mtu_framed :
    (mtu id : ℕ) (body bytes : List ℕ)
    → ((validate_mtu mtu >> ok body) >>= λ bs. ok (encode_u8 id ++ bs)) ≡ ok bytes
    → (576 ≤ mtu) × (mtu ≤ 1400) × (id ∷ body ≡ bytes)
unfolding encode_u8 validate_mtu
mtu_framed mtu id body bytes h =
    elim (Bool-cases (ltb mtu minimum_mtu_size || ltb maximum_mtu_size mtu)) [
      | inl t ↦ absurd (ground arith)
      | inr f ↦ let whole : id ∷ body ≡ bytes = ground arith in (ground arith, ground arith, whole)
    ]

module _ ⦃io : BufInts⦄ where
  ping_lem :
      (p : UnconnectedPing) (rest : List ℕ)
      → length p.magic ≡ 16
      → Fits (unconnected_ping p)
      → decode_ping p.magic (encode_ping p ++ rest) ≡ ok (p, rest)
  unfolding decode_ping encode_ping
  ping_lem p rest m (t, g) = simp (
    append_assoc,
    decode_int-encode_int 8 p.ping_time
        (encode_magic p.magic ++ (encode_int 8 p.client_guid ++ rest)) t,
    decode_magic-encode_magic p.magic (encode_int 8 p.client_guid ++ rest) m,
    validate_magic_same p.magic,
    decode_int-encode_int 8 p.client_guid rest g,
  )

  reject_lem :
      (p : Reject) (rest : List ℕ)
      → length p.magic ≡ 16
      → p.server_guid < 256 ^ 8
      → decode_reject_packet p.magic (encode_reject p ++ rest) ≡ ok (p, rest)
  unfolding decode_reject_packet encode_reject
  reject_lem p rest m g = simp (
    append_assoc,
    decode_magic-encode_magic p.magic (encode_int 8 p.server_guid ++ rest) m,
    validate_magic_same p.magic,
    decode_int-encode_int 8 p.server_guid rest g,
  )

  incompatible_lem :
      (p : IncompatibleProtocolVersion) (rest : List ℕ)
      → length p.magic ≡ 16
      → p.server_guid < 256 ^ 8
      → decode_incompatible p.magic (
          (encode_u8 p.protocol_version ++ (encode_magic p.magic ++ encode_int 8 p.server_guid))
          ++ rest)
        ≡ ok (p, rest)
  unfolding decode_incompatible encode_u8 decode_u8
  incompatible_lem p rest m g = simp (
    append_assoc,
    decode_magic-encode_magic p.magic (encode_int 8 p.server_guid ++ rest) m,
    validate_magic_same p.magic,
    decode_int-encode_int 8 p.server_guid rest g,
  )

  pong_bytes : UnconnectedPong → List ℕ
  pong_bytes p =
      encode_int 8 p.ping_time
      ++ (encode_int 8 p.server_guid
          ++ (encode_magic p.magic ++ (encode_int 2 (length p.motd) ++ p.motd)))

  pong_framed :
      (p : UnconnectedPong) (bytes : List ℕ)
      → (encode_pong p >>= λ bs. ok (encode_u8 0x1C ++ bs)) ≡ ok bytes
      → (length p.motd ≤ 32767) × (0x1C ∷ pong_bytes p ≡ bytes)
  unfolding encode_pong encode_u8 validate_unconnected_pong_motd_len pong_bytes
  pong_framed p bytes e = elim (Bool-cases (ltb 32767 (length p.motd))) [
    | inl t ↦ absurd (ground arith)
    | inr f ↦
        let fits : ltb 65535 (length p.motd) ≡ false = ground arith in (ground arith, ground arith)
  ]

  pong_lem :
      (p : UnconnectedPong) (rest : List ℕ)
      → length p.magic ≡ 16
      → Fits (unconnected_pong p)
      → length p.motd ≤ 32767
      → decode_pong p.magic (pong_bytes p ++ rest) ≡ ok (p, rest)
  unfolding decode_pong pong_bytes
  pong_lem p rest m (t, g) short =
      let text = encode_int 2 (length p.motd) ++ (p.motd ++ rest) in
      simp (
        append_assoc,
        decode_int-encode_int 8 p.ping_time
            (encode_int 8 p.server_guid ++ (encode_magic p.magic ++ text)) t,
        decode_int-encode_int 8 p.server_guid (encode_magic p.magic ++ text) g,
        decode_magic-encode_magic p.magic text m,
        validate_magic_same p.magic,
        decode_int-encode_int 2 (length p.motd) (p.motd ++ rest) (omega arith),
        decode_bytes-append (length p.motd) p.motd rest refl,
      )

  request_1_lem :
      (p : OpenConnectionRequest1)
      → length p.magic ≡ 16
      → 576 ≤ p.mtu
      → p.mtu ≤ 1400
      → decode_request_1 p.magic (
          (encode_magic p.magic ++ (encode_u8 p.protocol_version ++ replicate (p.mtu - 18) 0))
          ++ [])
        ≡ ok (p, [])
  unfolding decode_request_1 encode_u8 decode_u8
  request_1_lem p m low high =
      let size : (length (replicate (p.mtu - 18) 0) + 18) % 2 ^ 16 ≡ p.mtu =
        omega (arith, length-replicate {A = ℕ} (p.mtu - 18) 0) in
      simp
        (
          append-nil,
          decode_magic-encode_magic p.magic (p.protocol_version ∷ replicate (p.mtu - 18) 0) m,
          validate_magic_same p.magic,
        )
        (ap (λ n. ok (record p { mtu = n }, [])) size)

  cookie_lem :
      (c : Option ℕ) (rest : List ℕ)
      → IsCookie c
      → decode_cookie (has_cookie c) (encode_cookie c ++ rest) ≡ ok (c, rest)
  unfolding decode_cookie encode_cookie
  cookie_lem none rest h = refl
  cookie_lem (some cookie) rest h = simp (decode_int-encode_int 4 cookie rest h)

  reply_1_lem :
      (p : OpenConnectionReply1) (rest : List ℕ)
      → length p.magic ≡ 16
      → Fits (open_connection_reply_1 p)
      → p.mtu ≤ 1400
      → decode_reply_1 p.magic (
          (encode_magic p.magic
            ++ (encode_int 8 p.server_guid
                ++ (encode_bool (has_cookie p.cookie)
                    ++ (encode_cookie p.cookie ++ encode_int 2 p.mtu))))
          ++ rest)
        ≡ ok (p, rest)
  unfolding decode_reply_1
  reply_1_lem p rest m (g, c) high =
      let mtu = encode_int 2 p.mtu ++ rest in
      let cookie = encode_bool (has_cookie p.cookie) ++ (encode_cookie p.cookie ++ mtu) in
      simp (
        append_assoc,
        decode_magic-encode_magic p.magic (encode_int 8 p.server_guid ++ cookie) m,
        validate_magic_same p.magic,
        decode_int-encode_int 8 p.server_guid cookie g,
        decode_bool-encode_bool (has_cookie p.cookie) (encode_cookie p.cookie ++ mtu),
        cookie_lem p.cookie mtu c,
        decode_int-encode_int 2 p.mtu rest (omega arith),
      )

  reply_2_lem :
      (p : OpenConnectionReply2) (rest : List ℕ)
      → length p.magic ≡ 16
      → Fits (open_connection_reply_2 p)
      → p.mtu ≤ 1400
      → decode_reply_2 p.magic (
          (encode_magic p.magic
            ++ (encode_int 8 p.server_guid
                ++ (encode_addr p.server_addr
                    ++ (encode_int 2 p.mtu ++ encode_bool p.use_encryption))))
          ++ rest)
        ≡ ok (p, rest)
  unfolding decode_reply_2
  reply_2_lem p rest m (g, a) high =
      let mtu = encode_int 2 p.mtu ++ (encode_bool p.use_encryption ++ rest) in
      simp (
        append_assoc,
        decode_magic-encode_magic p.magic
            (encode_int 8 p.server_guid ++ (encode_addr p.server_addr ++ mtu)) m,
        validate_magic_same p.magic,
        decode_int-encode_int 8 p.server_guid (encode_addr p.server_addr ++ mtu) g,
        decode_addr-encode_addr p.server_addr mtu a,
        decode_int-encode_int 2 p.mtu (encode_bool p.use_encryption ++ rest) (omega arith),
        decode_bool-encode_bool p.use_encryption rest,
      )

  request_2_lem :
      (p : OpenConnectionRequest2)
      → length p.magic ≡ 16
      → Fits (open_connection_request_2 p)
      → p.mtu ≤ 1400
      → decode_request_2 p.magic ((encode_magic p.magic ++ body_2 p p.cookie) ++ []) ≡ ok (p, [])
  unfolding decode_request_2 candidate_of
  request_2_lem p m (a, g, c) high = simp (
    append-nil,
    decode_magic-encode_magic p.magic (body_2 p p.cookie) m,
    validate_magic_same p.magic,
    parse_request_2_lem p p.cookie a g high c,
  )

  -- An offline packet whose magic has 16 bytes and whose numbers fit their types, the path and the
  -- proof of a second request as its cookie has them, is decoded to itself from the bytes that it is
  -- encoded to, under its own magic; nothing may follow the two requests, and what follows any other
  -- packet stays in the source.
  pub decode_with_magic-encode_offline :
      (p : OfflinePacket) (bytes rest : List ℕ)
      → length (magic_of p) ≡ 16
      → Fits p
      → Ends p rest
      → encode_offline p ≡ ok bytes
      → decode_with_magic (magic_of p) (bytes ++ rest) ≡ ok (p, rest)
  unfolding encode_offline encode_body encode_u8 decode_with_magic decode_u8 decode_registered
      decode_rejection decoded_as body_2
  decode_with_magic-encode_offline (unconnected_ping p) bytes rest m f z e =
      let q : 0x01 ∷ encode_ping p ≡ bytes = cc in rw (← q, ping_lem p rest m f) refl
  decode_with_magic-encode_offline (unconnected_ping_open_connections p) bytes rest m f z e =
      let q : 0x02 ∷ encode_ping p ≡ bytes = cc in rw (← q, ping_lem p rest m f) refl
  decode_with_magic-encode_offline (unconnected_pong p) bytes rest m f z e =
      let (short, q) = pong_framed p bytes e in rw (← q, pong_lem p rest m f short) refl
  decode_with_magic-encode_offline (open_connection_request_1 p) bytes rest m f z e =
      let (low, high, q) = mtu_framed p.mtu 0x05 _ bytes e in
      rw (← q, z, request_1_lem p m low high) refl
  decode_with_magic-encode_offline (open_connection_reply_1 p) bytes rest m f z e =
      let (low, high, q) = mtu_framed p.mtu 0x06 _ bytes e in
      rw (← q, reply_1_lem p rest m f high) refl
  decode_with_magic-encode_offline (open_connection_request_2 p) bytes rest m f z e =
      let (low, high, q) =
        mtu_framed p.mtu 0x07 (encode_magic p.magic ++ body_2 p p.cookie) bytes e in
      rw (← q, z, request_2_lem p m f high) refl
  decode_with_magic-encode_offline (open_connection_reply_2 p) bytes rest m f z e =
      let (low, high, q) = mtu_framed p.mtu 0x08 _ bytes e in
      rw (← q, reply_2_lem p rest m f high) refl
  decode_with_magic-encode_offline (incompatible_protocol_version p) bytes rest m f z e =
      let q : 0x19 ∷ encode_u8 p.protocol_version
            ++ (encode_magic p.magic ++ encode_int 8 p.server_guid)
          ≡ bytes =
        cc in
      rw (← q, incompatible_lem p rest m f) refl
  decode_with_magic-encode_offline (connection_request_failed p) bytes rest m f z e =
      let q : 0x11 ∷ encode_reject p ≡ bytes = cc in rw (← q, reject_lem p rest m f) refl
  decode_with_magic-encode_offline (already_connected p) bytes rest m f z e =
      let q : 0x12 ∷ encode_reject p ≡ bytes = cc in rw (← q, reject_lem p rest m f) refl
  decode_with_magic-encode_offline (no_free_incoming_connections p) bytes rest m f z e =
      let q : 0x14 ∷ encode_reject p ≡ bytes = cc in rw (← q, reject_lem p rest m f) refl
  decode_with_magic-encode_offline (connection_banned p) bytes rest m f z e =
      let q : 0x17 ∷ encode_reject p ≡ bytes = cc in rw (← q, reject_lem p rest m f) refl
  decode_with_magic-encode_offline (ip_recently_connected p) bytes rest m f z e =
      let q : 0x1A ∷ encode_reject p ≡ bytes = cc in rw (← q, reject_lem p rest m f) refl
