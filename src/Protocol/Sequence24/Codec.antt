-- ===== src/Protocol/Sequence24/Codec.antt =====
-- The three bytes of a sequence number.
use raknet_rust.Common.{ℕ, ◌≡◌, refl, List, ◌++◌, length, ok}
use raknet_rust.Protocol.Primitives.{encode_u24}
use raknet_rust.Protocol.Primitives.RoundTrip.{decode_u24-encode_u24}
use raknet_rust.Protocol.Sequence24.{IsSeq, encode, decode}
use raknet_rust.Protocol.Sequence24.Arith.{value_lem, new_lem}

pub decode-encode : (s : ℕ) (rest : List ℕ) → IsSeq s → decode (encode s ++ rest) ≡ ok (s, rest)
unfolding decode encode
decode-encode s rest h = rw (value_lem h, decode_u24-encode_u24 s rest h, new_lem h)

pub length-encode : (s : ℕ) → length (encode s) ≡ 3
unfolding encode encode_u24
length-encode s = refl
