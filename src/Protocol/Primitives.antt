-- ===== src/Protocol/Primitives.antt =====
-- src/protocol/primitives.rs: 24-bit integers, booleans, fixed-width integers, the magic and socket
-- addresses. `encode_` gives the bytes that are appended, `decode_` reads from the front of a source.
pub mod RoundTrip
pub mod Taken
use raknet_rust.Common.{
  ℕ, ◌+◌, ◌-◌, ◌*◌, ◌/◌, ◌%◌, ◌^◌, ◌<◌, ◌≡◌, Bool, ◌==◌, ltb, if◌then◌else◌, List, [], ◌∷◌, ◌++◌,
  length, take, drop, get_or, Result, ok, err, ◌>>=◌,
}
use raknet_rust.Protocol.Errors.{DecodeError, unexpected_eof, invalid_addr_version}
use raknet_rust.Protocol.Buffers.{BufInts}

-- What is decoded, and the rest of the source.
abbrev pub Decoded : Type 0 → Type 0
Decoded A = Result DecodeError (A × List ℕ)

unfoldable pub encode_u24 : ℕ → List ℕ
encode_u24 n = let v = n % 0x100_0000 in (v % 256) ∷ (v / 256 % 256) ∷ (v / 65536 % 256) ∷ []

-- The three shifted bytes have no bit in common: their `|` is their sum.
unfoldable pub decode_u24 : List ℕ → Decoded ℕ
decode_u24 (b0 ∷ b1 ∷ b2 ∷ src) = ok (b0 + b1 * 256 + b2 * 65536, src)
decode_u24 _ = err unexpected_eof

unfoldable pub encode_bool : Bool → List ℕ
encode_bool b = (if b then 1 else 0) ∷ []

unfoldable pub decode_bool : List ℕ → Decoded Bool
decode_bool [] = err unexpected_eof
decode_bool (b ∷ src) = ok (b == 1, src)

unfoldable pub encode_u8 : ℕ → List ℕ
encode_u8 v = v ∷ []

unfoldable pub decode_u8 : List ℕ → Decoded ℕ
decode_u8 [] = err unexpected_eof
decode_u8 (b ∷ src) = ok (b, src)

-- `copy_to_bytes` after the test of what remains.
unfoldable pub decode_bytes : ℕ → List ℕ → Decoded (List ℕ)
decode_bytes n src = if ltb (length src) n then err unexpected_eof else ok (take n src, drop n src)

-- `!b` on a byte.
abbrev flip : ℕ → ℕ
flip b = 255 - b

-- The ports and the flow and scope numbers are numbers, an address is its octets.
pub data SocketAddr : Type 0 where
  v4 : ℕ → ℕ → ℕ → ℕ → ℕ → SocketAddr
  v6 : List ℕ → ℕ → ℕ → ℕ → SocketAddr

-- The octets are bytes, 16 in IPv6, and the numbers fit their types.
abbrev pub IsAddr : SocketAddr → Type 0
IsAddr (v4 a b c d port) = (a < 256) × (b < 256) × (c < 256) × (d < 256) × (port < 65536)
IsAddr (v6 ip port flowinfo scope_id) =
    (length ip ≡ 16) × (port < 65536) × (flowinfo < 2 ^ 32) × (scope_id < 2 ^ 32)

module _ ⦃io : BufInts⦄ where
  -- The integers of `size` bytes, 2 or more; a signed one is its bit pattern.
  unfoldable pub encode_int : ℕ → ℕ → List ℕ
  encode_int size v = io.put_be size v

  unfoldable pub decode_int : ℕ → List ℕ → Decoded ℕ
  decode_int size src =
      if ltb (length src) size
      then err unexpected_eof
      else ok (io.get_be (take size src), drop size src)

  unfoldable pub encode_magic : List ℕ → List ℕ
  encode_magic magic = magic

  unfoldable pub decode_magic : List ℕ → Decoded (List ℕ)
  unfolding decode_bytes
  decode_magic src = decode_bytes 16 src

  unfoldable pub encode_addr : SocketAddr → List ℕ
  encode_addr (v4 a b c d port) = 4 ∷ flip a ∷ flip b ∷ flip c ∷ flip d ∷ io.put_be 2 port
  encode_addr (v6 ip port flowinfo scope_id) =
      6
      ∷ (io.put_le 2 23
          ++ (io.put_be 2 port ++ (io.put_be 4 flowinfo ++ (ip ++ io.put_be 4 scope_id))))

  decode_v4 : List ℕ → Decoded SocketAddr
  decode_v4 src =
      if ltb (length src) 6
      then err unexpected_eof
      else ok (
        v4 (flip (get_or src 0 0)) (flip (get_or src 1 0)) (flip (get_or src 2 0))
            (flip (get_or src 3 0)) (io.get_be (take 2 (drop 4 src))),
        drop 6 src,
      )

  -- The two bytes of the address family are read and ignored.
  decode_v6 : List ℕ → Decoded SocketAddr
  decode_v6 src =
      let after_family = drop 2 src in
      let after_port = drop 2 after_family in
      let after_flow = drop 4 after_port in
      let after_ip = drop 16 after_flow in
      if ltb (length src) 28
      then err unexpected_eof
      else ok (
        v6 (take 16 after_flow) (io.get_be (take 2 after_family)) (io.get_be (take 4 after_port))
            (io.get_be (take 4 after_ip)),
        drop 4 after_ip,
      )

  decode_addr_as : ℕ → List ℕ → Decoded SocketAddr
  unfolding decode_v4 decode_v6
  decode_addr_as version src =
      if version == 4
      then decode_v4 src
      else if version == 6
      then decode_v6 src
      else err (invalid_addr_version version)

  unfoldable pub decode_addr : List ℕ → Decoded SocketAddr
  unfolding decode_addr_as
  decode_addr [] = err unexpected_eof
  decode_addr (version ∷ src) = decode_addr_as version src
