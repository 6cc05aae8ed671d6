-- ===== src/Protocol/Primitives/RoundTrip.antt =====
-- Decoding what was encoded, with any bytes behind it.
use raknet_rust.Common.{
  ℕ, suc, ◌^◌, ◌≤◌, ◌<◌, ◌≡◌, refl, Bool, true, false, List, ◌++◌, length, length-append,
  take-append, drop-append, le→ltb, append_assoc, ok, arith,
}
use raknet_rust.Protocol.Buffers.{BufInts}
use raknet_rust.Protocol.Primitives.{
  encode_u24, decode_u24, encode_bool, decode_bool, encode_int, decode_int, decode_bytes,
  encode_magic, decode_magic, SocketAddr, v4, v6, IsAddr, encode_addr, decode_addr,
}

pub decode_u24-encode_u24 :
    (v : ℕ) (rest : List ℕ) → v < 16_777_216 → decode_u24 (encode_u24 v ++ rest) ≡ ok (v, rest)
unfolding decode_u24 encode_u24
decode_u24-encode_u24 v rest h = ground arith

pub decode_bool-encode_bool :
    (b : Bool) (rest : List ℕ) → decode_bool (encode_bool b ++ rest) ≡ ok (b, rest)
unfolding decode_bool encode_bool
decode_bool-encode_bool true rest = refl
decode_bool-encode_bool false rest = refl

length-append-le : (xs ys : List ℕ) (n : ℕ) → length xs ≡ n → n ≤ length (xs ++ ys)
length-append-le xs ys n e = omega (arith, length-append xs ys)

pub decode_bytes-append :
    (n : ℕ) (xs rest : List ℕ) → length xs ≡ n → decode_bytes n (xs ++ rest) ≡ ok (xs, rest)
unfolding decode_bytes
decode_bytes-append n xs rest e =
    rw (le→ltb _ n (length-append-le xs rest n e), take-append n xs rest e, drop-append n xs rest e)

pub decode_magic-encode_magic :
    ⦃io : BufInts⦄ (magic rest : List ℕ)
    → length magic ≡ 16
    → decode_magic (encode_magic magic ++ rest) ≡ ok (magic, rest)
unfolding decode_magic encode_magic
decode_magic-encode_magic magic rest e = decode_bytes-append 16 magic rest e

module _ ⦃io : BufInts⦄ where
  pub length-encode_int : (w v : ℕ) → length (encode_int w v) ≡ w
  unfolding encode_int
  length-encode_int w v = io.length-put_be w v

  pub decode_int-encode_int :
      (w v : ℕ) (rest : List ℕ) → v < 256 ^ w → decode_int w (encode_int w v ++ rest) ≡ ok (v, rest)
  unfolding decode_int encode_int
  decode_int-encode_int w v rest h =
      let e = io.length-put_be w v in
      rw (
        le→ltb _ w (length-append-le _ rest w e),
        take-append w _ rest e,
        drop-append w _ rest e,
        io.get_be-put_be w v h,
      )

  decode_v4_lem :
      (a b c d port : ℕ) (rest : List ℕ)
      → IsAddr (v4 a b c d port)
      → decode_addr (encode_addr (v4 a b c d port) ++ rest) ≡ ok (v4 a b c d port, rest)
  unfolding decode_addr encode_addr
  decode_v4_lem a b c d port rest h =
      let e = io.length-put_be 2 port in
      rw
        (
          le→ltb (suc (suc (suc (suc (length (io.put_be 2 port ++ rest)))))) 6
              (omega (arith, length-append-le (io.put_be 2 port) rest 2 e)),
          take-append 2 _ rest e,
          drop-append 2 _ rest e,
          io.get_be-put_be 2 port (omega arith),
        )
        (ground arith)

  decode_v6_lem :
      (ip : List ℕ) (port flowinfo scope_id : ℕ) (rest : List ℕ)
      → IsAddr (v6 ip port flowinfo scope_id)
      → decode_addr (encode_addr (v6 ip port flowinfo scope_id) ++ rest)
        ≡ ok (v6 ip port flowinfo scope_id, rest)
  unfolding decode_addr encode_addr
  decode_v6_lem ip port flowinfo scope_id rest h = simp append_assoc (
      rw (
        le→ltb _ 28 long,
        drop-append 2 (io.put_le 2 23) _ (io.length-put_le 2 23),
        take-append 2 (io.put_be 2 port) _ (io.length-put_be 2 port),
        drop-append 2 (io.put_be 2 port) _ (io.length-put_be 2 port),
        take-append 4 (io.put_be 4 flowinfo) _ (io.length-put_be 4 flowinfo),
        drop-append 4 (io.put_be 4 flowinfo) _ (io.length-put_be 4 flowinfo),
        take-append 16 ip _ h.0,
        drop-append 16 ip _ h.0,
        take-append 4 (io.put_be 4 scope_id) rest (io.length-put_be 4 scope_id),
        drop-append 4 (io.put_be 4 scope_id) rest (io.length-put_be 4 scope_id),
        io.get_be-put_be 2 port (omega arith),
        io.get_be-put_be 4 flowinfo (omega arith),
        io.get_be-put_be 4 scope_id (omega arith),
      ))
    where
      long :
          28
          ≤ length (
              io.put_le 2 23
              ++ (io.put_be 2 port
                  ++ (io.put_be 4 flowinfo ++ (ip ++ (io.put_be 4 scope_id ++ rest)))))
      long = omega (
        arith,
        length-append (io.put_le 2 23)
            (io.put_be 2 port ++ (io.put_be 4 flowinfo ++ (ip ++ (io.put_be 4 scope_id ++ rest)))),
        length-append (io.put_be 2 port)
            (io.put_be 4 flowinfo ++ (ip ++ (io.put_be 4 scope_id ++ rest))),
        length-append (io.put_be 4 flowinfo) (ip ++ (io.put_be 4 scope_id ++ rest)),
        length-append ip (io.put_be 4 scope_id ++ rest),
        length-append (io.put_be 4 scope_id) rest,
        io.length-put_le 2 23,
        io.length-put_be 2 port,
        io.length-put_be 4 flowinfo,
        io.length-put_be 4 scope_id,
        h.0,
      )

  -- A socket address that is encoded is decoded to itself, and what follows it stays in the source.
  pub decode_addr-encode_addr :
      (a : SocketAddr) (rest : List ℕ)
      → IsAddr a
      → decode_addr (encode_addr a ++ rest) ≡ ok (a, rest)
  decode_addr-encode_addr (v4 a b c d port) rest h = decode_v4_lem a b c d port rest h
  decode_addr-encode_addr (v6 ip port flowinfo scope_id) rest h =
      decode_v6_lem ip port flowinfo scope_id rest h
