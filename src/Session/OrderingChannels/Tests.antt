-- ===== src/Session/OrderingChannels/Tests.antt =====
-- The theorems on ordering channels at concrete histories.
use raknet_rust.Common.{List, [], ◌∷◌, some, arith}
use raknet_rust.Protocol.Frame.{Frame}
use raknet_rust.Protocol.Frame.Samples.{ordered_frame}
use raknet_rust.Session.OrderingChannels.{ChannelState, OrderingChannels, new}
use raknet_rust.Session.OrderingChannels.InOrder.{Consecutive}
use raknet_rust.Session.OrderingChannels.History.{
  channel, deliver, new-AreChannels, deliver_in_order,
}

-- Frames 1, 0 and 2 on channel 3, with one on channel 0 between them.
abbrev history : List Frame
history =
    ordered_frame 1 3 (1 ∷ [])
    ∷ ordered_frame 0 0 (9 ∷ [])
    ∷ ordered_frame 0 3 (0 ∷ [])
    ∷ ordered_frame 2 3 (2 ∷ [])
    ∷ []

abbrev start : OrderingChannels
start = new 4 16 32

deliver_in_order_history :
    Consecutive
      (channel start 3).expected_order
      (deliver 3 start history).1
      (channel (deliver 3 start history).0 3).expected_order
deliver_in_order_history = deliver_in_order 3 start history (new-AreChannels 4 16 32) (ground arith)

abbrev sequenced : ChannelState
sequenced = record { expected_order = 0; last_sequence = some 4; pending_ordered = [] }
