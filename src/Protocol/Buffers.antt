-- ===== src/Protocol/Buffers.antt =====
-- The multi-byte integers of the `bytes` crate (`Buf`, `BufMut`), which the codecs call.
-- A source is the list of the bytes that remain in it, and what is put is a list that is appended.
-- Single bytes and slices are list operations; the layout of wider integers is a parameter.
pub mod Reference
use raknet_rust.Common.{ℕ, ◌^◌, ◌<◌, ◌≡◌, List, length, All, IsByte}

-- `put_be w` stands for `put_u16`, `put_u32`, `put_u64`, `put_i64` at their widths w, `get_be` for the
-- matching `get_` functions on that many bytes, and `put_le` for `put_u16_le`. The laws are what the
-- crate documents: the width, the range, and that reading gives back what was put.
pub record BufInts : Type 0 where
  pub put_be : ℕ → ℕ → List ℕ
  pub get_be : List ℕ → ℕ
  pub put_le : ℕ → ℕ → List ℕ
  pub length-put_be : (w v : ℕ) → length (put_be w v) ≡ w
  pub length-put_le : (w v : ℕ) → length (put_le w v) ≡ w
  pub get_be-put_be : (w v : ℕ) → v < 256 ^ w → get_be (put_be w v) ≡ v
  pub put_be-IsByte : (w v : ℕ) → All IsByte (put_be w v)
  pub put_le-IsByte : (w v : ℕ) → All IsByte (put_le w v)
  pub get_be-lt : (bs : List ℕ) → All IsByte bs → get_be bs < 256 ^ length bs
