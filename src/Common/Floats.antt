-- ===== src/Common/Floats.antt =====
-- The numbers of type `f64`, as far as the code computes with them: a parameter, with the laws of
-- IEEE 754 and of the standard library that are used. A number that is not NaN is `≼` itself.
use Prim.Native.Nat.{ℕ, zero, suc, ◌+◌, ◌-◌, ◌*◌, ◌/◌, ◌≤◌, ◌^◌, min, max}
use mathlib.Core.Path.{◌≡◌, ap}
use mathlib.Core.Bool.{Bool, true, false}
use native.Mathlib.Omega.{arith}
use raknet_rust.Common.Tests.{ltb, leb}

-- `decimal n k` is the literal n / 10 ^ k, and `of_nat` is `as f64`. `floor_usize` is
-- `.floor() as usize`.
pub record Floats (F : Type 0) : Type 0 where
  pub of_nat : ℕ → F
  pub decimal : ℕ → ℕ → F
  pub infinity : F
  pub add : F → F → F
  pub sub : F → F → F
  pub mul : F → F → F
  pub div : F → F → F
  pub abs : F → F
  pub fmax : F → F → F
  pub clamp : F → F → F → F
  pub floor : F → F
  pub floor_usize : F → ℕ
  pub le : F → F → Bool
  pub lt : F → F → Bool
  pub is_finite : F → Bool

infix 4 ◌≼◌
abbrev pub ◌≼◌ : {F : Type 0} ⦃d : Floats F⦄ → F → F → Type 0
◌≼◌ ⦃d⦄ x y = d.le x y ≡ true

-- Numbers are ordered, and NaN is not among them. `max` returns the other number for NaN. A sum of
-- numbers that are not negative is no NaN, nor is the product of such a number and a factor between
-- 0.1 and 1.
pub record IsFloats (F : Type 0) ⦃d : Floats F⦄ : Type 0 where
  pub le_trans : (x y z : F) → x ≼ y → y ≼ z → x ≼ z
  pub le_number : (x y : F) → x ≼ y → (x ≼ x) × (y ≼ y)
  pub le-decimal : (m n k : ℕ) → m ≤ n → d.decimal m k ≼ d.decimal n k
  pub decimal-shift : (n k : ℕ) → d.decimal (n * 10) (suc k) ≡ d.decimal n k
  pub le-fmax : (x y : F) → y ≼ y → y ≼ d.fmax x y
  pub fmax-le : (x y : F) → x ≼ x → x ≼ d.fmax x y
  pub fmax-le_both : (x y z : F) → x ≼ z → y ≼ z → d.fmax x y ≼ z
  pub finite_number : (x : F) → d.is_finite x ≡ true → x ≼ x
  pub not-lt : (x y : F) → x ≼ x → y ≼ y → d.lt x y ≡ false → y ≼ x
  pub le-clamp : (x lo hi : F) → x ≼ x → lo ≼ hi → (lo ≼ d.clamp x lo hi) × (d.clamp x lo hi ≼ hi)
  pub add_number : (x y : F) → d.decimal 0 0 ≼ x → d.decimal 0 0 ≼ y → d.add x y ≼ d.add x y
  pub mul_number :
      (x y : F) → d.decimal 0 0 ≼ x → d.decimal 1 1 ≼ y → y ≼ d.decimal 1 0 → d.mul x y ≼ d.mul x y
  pub lt-floor : (x : F) → d.decimal 1 0 ≼ x → d.lt (d.of_nat 0) (d.floor x) ≡ true

-- The laws can be met: numbers of thousandths, which stop at 0.
abbrev shift : ℕ → ℕ → ℕ
shift x zero = x
shift x (suc k) = shift (x / 10) k

instance abbrev pub thousandths : Floats ℕ
thousandths = record {
  of_nat = λ n. n * 1000;
  decimal = λ n k. shift (n * 1000) k;
  infinity = 2 ^ 64;
  add = λ a b. a + b;
  sub = λ a b. a - b;
  mul = λ a b. a * b / 1000;
  div = λ a b. a * 1000 / b;
  abs = λ a. a;
  fmax = max;
  clamp = λ x lo hi. min (max x lo) hi;
  floor = λ x. x / 1000 * 1000;
  floor_usize = λ x. x / 1000;
  le = leb;
  lt = ltb;
  is_finite = λ a. true;
}

shift_mono : (x y k : ℕ) → x ≤ y → shift x k ≤ shift y k
shift_mono x y zero h = h
shift_mono x y (suc k) h = shift_mono (x / 10) (y / 10) k (omega arith)

pub ℕ-IsFloats : IsFloats ℕ
ℕ-IsFloats = record {
  le_trans = λ x y z h k. ground arith;
  le_number = λ x y h. ground arith;
  le-decimal = λ m n k h. ground (arith, shift_mono (m * 1000) (n * 1000) k);
  decimal-shift = λ n k. ap (λ x. shift x k) (omega arith);
  le-fmax = λ x y h. ground arith;
  fmax-le = λ x y h. ground arith;
  fmax-le_both = λ x y z h k. ground arith;
  finite_number = λ x h. ground arith;
  not-lt = λ x y h k e. ground arith;
  le-clamp = λ x lo hi h k. ground arith;
  add_number = λ x y h k. ground arith;
  mul_number = λ x y h k l. ground arith;
  lt-floor = λ x h. ground arith;
}
