-- ===== src/Protocol/FrameHeader.antt =====
-- src/protocol/frame_header.rs: the first byte of a frame.
use Prim.Native.Nat.{bit_and, bit_or}
use raknet_rust.Common.{
  ℕ, ◌*◌, ◌/◌, ◌≡◌, refl, Bool, true, not, ◌==◌, if◌then◌else◌, List, [], ◌∷◌, ◌++◌, Result, ok,
  ◌>>=◌, arith,
}
use raknet_rust.Protocol.Errors.{DecodeError}
use raknet_rust.Protocol.Constants.{frame_flag_split, frame_flag_needs_bas}
use raknet_rust.Protocol.Primitives.{Decoded, decode_u8}
use raknet_rust.Protocol.Reliability.{Reliability, to_u8, try_from, unreliable}

pub record FrameHeader : Type 0 where
  pub reliability : Reliability
  pub is_split : Bool
  pub needs_bas : Bool

unfoldable pub from_byte : ℕ → Result DecodeError FrameHeader
unfolding try_from
from_byte raw = do
  r ← try_from (raw / 32)
  ok (record {
    reliability = r;
    is_split = not (bit_and raw frame_flag_split == 0);
    needs_bas = not (bit_and raw frame_flag_needs_bas == 0);
  })

-- `(self.reliability as u8) << 5` is at most 224.
unfoldable pub to_byte : FrameHeader → ℕ
to_byte h =
    let raw = to_u8 h.reliability * 32 in
    let raw = if h.is_split then bit_or raw frame_flag_split else raw in
    if h.needs_bas then bit_or raw frame_flag_needs_bas else raw

unfoldable pub encode : FrameHeader → List ℕ
unfolding to_byte
encode h = to_byte h ∷ []

unfoldable pub decode : List ℕ → Decoded FrameHeader
unfolding from_byte
decode src = do (b, src) ← decode_u8 src; h ← from_byte b; ok (h, src)

abbrev header_of : Reliability → Bool → Bool → FrameHeader
header_of r s b = record { reliability = r; is_split = s; needs_bas = b }

-- A table of the 32 headers, by evaluation.
from_byte-to_byte_table :
    (r : Reliability) (s b : Bool) → from_byte (to_byte (header_of r s b)) ≡ ok (header_of r s b)
unfolding from_byte to_byte
from_byte-to_byte_table unreliable true true = refl
from_byte-to_byte_table r s b = ground arith

-- A header reads back from its byte.
pub from_byte-to_byte : (h : FrameHeader) → from_byte (to_byte h) ≡ ok h
from_byte-to_byte h = from_byte-to_byte_table h.reliability h.is_split h.needs_bas

pub decode-encode : (h : FrameHeader) (rest : List ℕ) → decode (encode h ++ rest) ≡ ok (h, rest)
unfolding decode encode decode_u8
decode-encode h rest = rw (from_byte-to_byte h)
