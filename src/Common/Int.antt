-- ===== src/Common/Int.antt =====
-- Signed integers over the native numbers, under the library's names, and 64-bit counters.
use Prim.Native.Nat.{ℕ, ◌+◌, ◌-◌, min}
use raknet_rust.Common.Tests.{leb, if◌then◌else◌}

-- `negsuc n` is -(n + 1).
pub data ℤ : Type 0 where
  pos : ℕ → ℤ
  negsuc : ℕ → ℤ

-- a - b, as an integer.
abbrev pub sub_ℕ : ℕ → ℕ → ℤ
sub_ℕ a b = if leb b a then pos (a - b) else negsuc (b - a - 1)

abbrev pub max_u64 : ℕ
max_u64 = 0xFFFF_FFFF_FFFF_FFFF

-- `saturating_add` of `u64` and `usize`.
abbrev pub saturating_add : ℕ → ℕ → ℕ
saturating_add a b = min (a + b) max_u64
