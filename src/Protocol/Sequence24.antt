-- ===== src/Protocol/Sequence24.antt =====
-- src/protocol/sequence24.rs: 24-bit sequence numbers on a circle. `Sequence24(u32)` is its number.
pub mod Arith
pub mod Order
pub mod Codec
mod Tests
use Prim.Native.Nat.{Ordering}
use raknet_rust.Common.{
  ℕ, suc, ◌+◌, ◌-◌, ◌%◌, ◌^◌, ◌<◌, Bool, true, false, ◌&&◌, ◌||◌, ltb, leb, ◌==◌, if◌then◌else◌,
}
use raknet_rust.Common.{List, ok, ◌>>=◌}
use raknet_rust.Protocol.Primitives.{Decoded, encode_u24, decode_u24}
use raknet_rust.Common.Int.{ℤ, pos, negsuc, sub_ℕ}

abbrev pub modulo : ℕ
modulo = 16_777_216

abbrev pub mask : ℕ
mask = modulo - 1

abbrev pub half : ℕ
half = 8_388_608

abbrev pub Sequence24 : Type 0
Sequence24 = ℕ

-- What `new` makes: every value of the type in the program.
abbrev pub IsSeq : Sequence24 → Type 0
IsSeq s = s < modulo

-- `value & MASK`, as the remainder by 2 ^ 24.
unfoldable pub new : ℕ → Sequence24
new v = v % modulo

unfoldable pub value : Sequence24 → ℕ
value s = s % modulo

unfoldable pub next : Sequence24 → Sequence24
unfolding new value
next s = new (value s + 1)

unfoldable pub prev : Sequence24 → Sequence24
unfolding new value
prev s = if value s == 0 then new mask else new (value s - 1)

unfoldable pub distance_to : Sequence24 → Sequence24 → ℕ
unfolding value
distance_to s newer =
    let cur = value s in
    let target = value newer in if leb cur target then target - cur else modulo - cur + target

-- The signed difference `delta` of two numbers below 2 ^ 24 does not wrap an i32: it is positive
-- if b < a, and then a - b; it is negative if a < b, and then -(b - a).
unfoldable pub cmp : Sequence24 → Sequence24 → Ordering
unfolding value
cmp s other =
    let a = value s in
    let b = value other in
    if a == b
    then Ordering.eq
    else if (ltb b a && ltb (a - b) half) || (ltb a b && ltb half (b - a))
    then Ordering.gt
    else Ordering.lt

-- The operators that Rust derives from `partial_cmp`.
unfoldable pub lt : Sequence24 → Sequence24 → Bool
unfolding cmp
lt a b = elim (cmp a b) [ Ordering.lt ↦ true | _ ↦ false ]

unfoldable pub gt : Sequence24 → Sequence24 → Bool
unfolding cmp
gt a b = elim (cmp a b) [ Ordering.gt ↦ true | _ ↦ false ]

unfoldable pub ge : Sequence24 → Sequence24 → Bool
unfolding cmp
ge a b = elim (cmp a b) [ Ordering.lt ↦ false | _ ↦ true ]

-- `Ord::min` and `Ord::max` of the standard library.
unfoldable pub min_seq : Sequence24 → Sequence24 → Sequence24
unfolding lt
min_seq a b = if lt b a then b else a

unfoldable pub max_seq : Sequence24 → Sequence24 → Sequence24
unfolding lt
max_seq a b = if lt b a then a else b

pub add : Sequence24 → Sequence24 → Sequence24
unfolding new value
add a b = new ((value a + value b) % modulo)

-- `value %= MODULO` keeps the sign of the dividend; a negative remainder is moved up once.
wrap_i32 : ℤ → ℕ
wrap_i32 (pos n) = n % modulo
wrap_i32 (negsuc n) = let r = suc n % modulo in if r == 0 then 0 else modulo - r

-- The sum of the value and an `i32`, which wraps as in a release build. Below, it cannot: the value is
-- not negative.
add_offset : ℕ → ℤ → ℤ
add_offset a (pos n) = if ltb (a + n) (2 ^ 31) then pos (a + n) else negsuc (2 ^ 32 - (a + n) - 1)
add_offset a (negsuc n) = sub_ℕ a (suc n)

pub add_i32 : Sequence24 → ℤ → Sequence24
unfolding new value wrap_i32 add_offset
add_i32 a rhs = new (wrap_i32 (add_offset (value a) rhs))

unfoldable pub encode : Sequence24 → List ℕ
unfolding value
encode s = encode_u24 (value s)

unfoldable pub decode : List ℕ → Decoded Sequence24
unfolding new
decode src = do (v, src) ← decode_u24 src; ok (new v, src)
