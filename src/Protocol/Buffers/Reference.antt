-- ===== src/Protocol/Buffers/Reference.antt =====
-- Positional notation meets the laws of `BufInts`.
use native.Mathlib.Nat.{pow-suc}
use raknet_rust.Common.{
  ℕ, zero, suc, ◌+◌, ◌*◌, ◌/◌, ◌%◌, ◌^◌, ◌<◌, ◌≡◌, refl, List, [], ◌∷◌, ◌++◌, length, length-append,
  All, All-append, IsByte, arith,
}
use raknet_rust.Protocol.Buffers.{BufInts}

abbrev pub big_endian : ℕ → ℕ → List ℕ
big_endian zero v = []
big_endian (suc w) v = big_endian w (v / 256) ++ ((v % 256) ∷ [])

abbrev pub little_endian : ℕ → ℕ → List ℕ
little_endian zero v = []
little_endian (suc w) v = (v % 256) ∷ little_endian w (v / 256)

abbrev pub from_digits : ℕ → List ℕ → ℕ
from_digits acc [] = acc
from_digits acc (b ∷ bs) = from_digits (acc * 256 + b) bs

pub length-big_endian : (w v : ℕ) → length (big_endian w v) ≡ w
length-big_endian zero v = refl
length-big_endian (suc w) v =
    omega (
      arith,
      length-append (big_endian w (v / 256)) ((v % 256) ∷ []),
      length-big_endian w (v / 256),
    )

pub length-little_endian : (w v : ℕ) → length (little_endian w v) ≡ w
length-little_endian zero v = refl
length-little_endian (suc w) v = omega (arith, length-little_endian w (v / 256))

from_digits-append :
    (acc b : ℕ) (xs : List ℕ) → from_digits acc (xs ++ (b ∷ [])) ≡ from_digits acc xs * 256 + b
from_digits-append acc b [] = refl
from_digits-append acc b (x ∷ xs) = from_digits-append (acc * 256 + x) b xs

pub from_digits-big_endian : (w v : ℕ) → v < 256 ^ w → from_digits 0 (big_endian w v) ≡ v
from_digits-big_endian zero v h = omega arith
from_digits-big_endian (suc w) v h = omega (
  arith,
  from_digits-append 0 (v % 256) (big_endian w (v / 256)),
  from_digits-big_endian w (v / 256) (omega (arith, pow-suc 256 w)),
)

pub big_endian-IsByte : (w v : ℕ) → All IsByte (big_endian w v)
big_endian-IsByte zero v = tt
big_endian-IsByte (suc w) v =
    All-append IsByte (big_endian w (v / 256)) _ (big_endian-IsByte w (v / 256)) (omega arith)

pub little_endian-IsByte : (w v : ℕ) → All IsByte (little_endian w v)
little_endian-IsByte zero v = tt
little_endian-IsByte (suc w) v = (omega arith, little_endian-IsByte w (v / 256))

from_digits-lt :
    (acc k m : ℕ) (bs : List ℕ)
    → length bs + k ≡ m
    → acc < 256 ^ k
    → All IsByte bs
    → from_digits acc bs < 256 ^ m
from_digits-lt acc k m [] e h b = let e' : k ≡ m = omega arith in rw (← e') h
from_digits-lt acc k m (x ∷ bs) e h b =
    from_digits-lt (acc * 256 + x) (suc k) m bs (omega arith) (omega (arith, pow-suc 256 k)) b.1

pub from_digits-lt_zero : (bs : List ℕ) → All IsByte bs → from_digits 0 bs < 256 ^ length bs
from_digits-lt_zero bs b = from_digits-lt 0 0 (length bs) bs (omega arith) (omega arith) b

instance abbrev pub reference : BufInts
reference = record {
  put_be = big_endian;
  get_be = from_digits 0;
  put_le = little_endian;
  length-put_be = length-big_endian;
  length-put_le = length-little_endian;
  get_be-put_be = from_digits-big_endian;
  put_be-IsByte = big_endian-IsByte;
  put_le-IsByte = little_endian-IsByte;
  get_be-lt = from_digits-lt_zero;
}
