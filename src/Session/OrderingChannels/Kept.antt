-- ===== src/Session/OrderingChannels/Kept.antt =====
-- What a frame, of whatever kind, keeps of the channels.
use raknet_rust.Common.{ℕ, inl, inr, All-get_or, All-set, Option-cases, Bool-cases}
use raknet_rust.Protocol.Sequence24.{Sequence24}
use raknet_rust.Protocol.Frame.{Frame}
use raknet_rust.Session.OrderingChannels.InOrder.{IsChannel}
use raknet_rust.Session.OrderingChannels.History.{
  AreChannels, HasSeq, grow-AreChannels, default-IsChannel, handle_ordered-Handled,
}
use raknet_rust.Session.OrderingChannels.{
  ChannelState, default_channel, OrderingChannels, grow, channel_of, is_stale, sequence_in,
  sequence_indexed, handle_sequenced, handle_ordered,
}

pub handle_ordered-AreChannels :
    (o : OrderingChannels) (f : Frame)
    → AreChannels o
    → HasSeq f
    → AreChannels (handle_ordered o f).0
handle_ordered-AreChannels o f v h = (handle_ordered-Handled o 0 f v h).0

sequence_in-IsChannel :
    (m gap : ℕ) (s : ChannelState) (i : Sequence24)
    → IsChannel m s
    → IsChannel m (sequence_in gap s i).0
unfolding sequence_in
sequence_in-IsChannel m gap s i v = elim (Bool-cases (is_stale gap s.last_sequence i)) [
  | inl t ↦ rw t v
  | inr f ↦
      rw f record {
        expected = v.expected;
        sorted = v.sorted;
        waiting = v.waiting;
        bounded = v.bounded;
      }
]

sequence_indexed-AreChannels :
    (o : OrderingChannels) (i : Sequence24) (f : Frame)
    → AreChannels o
    → AreChannels (sequence_indexed o i f).0
unfolding sequence_indexed
sequence_indexed-AreChannels o i f v =
    let m = o.max_pending_per_channel in
    let idx = channel_of f in
    let cs = grow-AreChannels m o.channels idx v in
    let s =
      All-get_or (IsChannel m) (grow o.channels idx) idx default_channel cs (default-IsChannel m) in
    All-set (IsChannel m) (grow o.channels idx) idx _ cs (sequence_in-IsChannel m o.max_gap _ i s)

pub handle_sequenced-AreChannels :
    (o : OrderingChannels) (f : Frame) → AreChannels o → AreChannels (handle_sequenced o f).0
unfolding handle_sequenced channel_of
handle_sequenced-AreChannels o f v = elim (Option-cases f.sequence_index) [
  | inl e ↦ rw e v
  | inr (i, e) ↦ rw e (sequence_indexed-AreChannels o i f v)
]
