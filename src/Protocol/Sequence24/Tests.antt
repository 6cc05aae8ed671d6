-- ===== src/Protocol/Sequence24/Tests.antt =====
-- Runs of the sequence numbers, and the theorems at concrete inputs.
use Prim.Native.Nat.{Ordering}
use raknet_rust.Common.{◌≡◌, ◌↔◌, refl, arith}
use raknet_rust.Protocol.Sequence24.{next, cmp, half, distance_to}
use raknet_rust.Protocol.Sequence24.Order.{cmp_opposite}

next_wraps : next 16_777_215 ≡ 0
unfolding next
next_wraps = refl

cmp_opposite_half :
    ((cmp 3 8_388_611 ≡ Ordering.lt) × (cmp 8_388_611 3 ≡ Ordering.lt))
    ↔ (distance_to 3 8_388_611 ≡ half)
cmp_opposite_half = cmp_opposite 3 8_388_611 (omega arith) (omega arith)
