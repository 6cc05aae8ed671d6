-- ===== src/Protocol/Sequence24/Arith.antt =====
-- Steps and distances on the circle of sequence numbers.
use raknet_rust.Common.{ℕ, suc, ◌+◌, ◌-◌, ◌^◌, ◌<◌, ◌≡◌, ◌≢◌, arith}
use raknet_rust.Common.Int.{pos, negsuc}
use raknet_rust.Protocol.Sequence24.{
  IsSeq, modulo, new, value, next, prev, distance_to, add, add_i32,
}

pub new-IsSeq : (v : ℕ) → IsSeq (new v)
unfolding new
new-IsSeq v = omega arith

pub value_lem : {s : ℕ} → IsSeq s → value s ≡ s
unfolding value
value_lem h = omega arith

pub new_lem : {s : ℕ} → IsSeq s → new s ≡ s
unfolding new
new_lem h = omega arith

pub next-IsSeq : (s : ℕ) → IsSeq (next s)
unfolding next
next-IsSeq s = omega arith

pub prev-IsSeq : (s : ℕ) → IsSeq (prev s)
unfolding prev
prev-IsSeq s = ground arith

-- `next` and `prev` undo one another on every sequence number.
pub next-prev : (s : ℕ) → IsSeq s → (next (prev s) ≡ s) × (prev (next s) ≡ s)
unfolding next prev
next-prev s h = ground arith

-- `distance_to` is below 2 ^ 24, it is the number of steps from the first to the second, and it is 0
-- only between equal numbers.
pub distance_to_lem :
    (a b : ℕ)
    → IsSeq a
    → IsSeq b
    → (distance_to a b < modulo) × (new (a + distance_to a b) ≡ b) × (distance_to a b ≡ 0 → a ≡ b)
unfolding distance_to new
distance_to_lem a b ha hb = ground arith

pub distance_to_self : (a : ℕ) → distance_to a a ≡ 0
unfolding distance_to
distance_to_self a = ground arith

-- One step forward brings every other number one nearer, and leaves this one a full circle behind.
pub distance_to-next :
    (a b : ℕ)
    → IsSeq a
    → IsSeq b
    → (a ≢ b → distance_to (next a) b + 1 ≡ distance_to a b) × (distance_to (next a) a ≡ modulo - 1)
unfolding distance_to next
distance_to-next a b ha hb = (λ h. ground arith, ground arith)

-- Adding the distance from one number to another arrives at the other.
pub add-distance_to : (a b : ℕ) → IsSeq a → IsSeq b → add a (distance_to a b) ≡ b
unfolding add distance_to
add-distance_to a b ha hb = ground arith

-- Adding a positive offset of an `i32` and then its negative returns, even if the sum wraps.
pub add_i32_inverse :
    (a n : ℕ) → IsSeq a → suc n < 2 ^ 31 → add_i32 (add_i32 a (pos (suc n))) (negsuc n) ≡ a
unfolding add_i32
add_i32_inverse a n ha hn = ground arith
