-- ===== src/Session/OrderingChannels/Sequenced.antt =====
-- Sequenced frames: what a channel still takes after it has taken one.
use raknet_rust.Common.{ℕ, ◌+◌, ◌<◌, ◌≡◌, refl, inl, inr, true, Bool-cases, some, arith}
use raknet_rust.Protocol.Sequence24.{Sequence24, IsSeq, modulo, distance_to}
use raknet_rust.Session.OrderingChannels.{ChannelState, accept, drop_stale, is_stale, sequence_in}

accepts-last :
    (max_gap : ℕ) (s : ChannelState) (index : Sequence24)
    → (sequence_in max_gap s index).1 ≡ accept
    → (sequence_in max_gap s index).0.last_sequence ≡ some index
unfolding sequence_in
accepts-last max_gap s index h = elim (Bool-cases (is_stale max_gap s.last_sequence index)) [
  | inl t ↦ ground (arith, t)
  | inr f ↦ rw f refl
]

stale_lem :
    (max_gap : ℕ) (last other : Sequence24)
    → IsSeq last
    → IsSeq other
    → distance_to other last + max_gap < modulo
    → is_stale max_gap (some last) other ≡ true
unfolding is_stale distance_to
stale_lem max_gap last other hl ho h = ground arith

-- When a channel has taken a sequenced frame, it drops the same frame again and each one that is up to
-- 2 ^ 24 - 1 - `max_gap` steps older.
pub sequence_in_older :
    (max_gap : ℕ) (s : ChannelState) (index older : Sequence24)
    → IsSeq index
    → IsSeq older
    → (sequence_in max_gap s index).1 ≡ accept
    → distance_to older index + max_gap < modulo
    → (sequence_in max_gap (sequence_in max_gap s index).0 older).1 ≡ drop_stale
unfolding sequence_in
sequence_in_older max_gap s index older hi ho a h =
    let l = accepts-last max_gap s index a in
    let t = stale_lem max_gap index older hi ho h in rw (l, t) refl
