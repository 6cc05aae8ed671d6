-- ===== src/Protocol/Sequence24/Order.antt =====
-- The comparison of sequence numbers, against the distance on the circle.
use Prim.Native.Nat.{Ordering}
use raknet_rust.Common.{ℕ, ◌≤◌, ◌<◌, ◌≡◌, ◌↔◌, arith}
use raknet_rust.Protocol.Sequence24.{IsSeq, half, next, distance_to, cmp}

-- `cmp` is serial number arithmetic: equal for equal numbers, greater if the first is fewer than
-- 2 ^ 23 steps ahead of the second, and less if it is 2 ^ 23 steps ahead or more.
pub cmp-distance_to :
    (a b : ℕ)
    → IsSeq a
    → IsSeq b
    → ((cmp a b ≡ Ordering.eq) ↔ (distance_to b a ≡ 0))
      × ((cmp a b ≡ Ordering.gt) ↔ ((0 < distance_to b a) × (distance_to b a < half)))
      × ((cmp a b ≡ Ordering.lt) ↔ (half ≤ distance_to b a))
unfolding cmp distance_to
cmp-distance_to a b ha hb = (
  (λ e. ground arith, λ e. ground arith),
  (λ e. ground arith, λ e. ground arith),
  (λ e. ground arith, λ e. ground arith),
)

-- Two numbers are each less than the other exactly when they are 2 ^ 23 steps apart: there, and only
-- there, the order is not antisymmetric.
pub cmp_opposite :
    (a b : ℕ)
    → IsSeq a
    → IsSeq b
    → ((cmp a b ≡ Ordering.lt) × (cmp b a ≡ Ordering.lt)) ↔ (distance_to a b ≡ half)
unfolding cmp distance_to
cmp_opposite a b ha hb = (λ e. ground arith, λ e. ground arith)

pub cmp-ne-both-gt : (a b : ℕ) → IsSeq a → IsSeq b → cmp a b ≡ Ordering.gt → cmp b a ≡ Ordering.lt
unfolding cmp
cmp-ne-both-gt a b ha hb e = ground arith

pub cmp-next : (a : ℕ) → IsSeq a → cmp a (next a) ≡ Ordering.lt
unfolding cmp next
cmp-next a h = ground arith
