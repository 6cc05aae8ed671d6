-- ===== src/Session/OrderingChannels/Drain.antt =====
-- What draining takes out of the channels.
use raknet_rust.Common.{ℕ, ◌+◌, ◌≡◌, refl, List, [], ◌∷◌, map, length, length-append, All, arith}
use raknet_rust.Protocol.Frame.{Frame}
use raknet_rust.Session.OrderingChannels.{
  ChannelState, OrderingChannels, take_pending, drain_channels, drain_pending_ordered_frames,
}

abbrev pub sum_pending : List ChannelState → ℕ
sum_pending [] = 0
sum_pending (s ∷ cs) = length s.pending_ordered + sum_pending cs

-- No frame waits.
abbrev pub IsIdle : ChannelState → Type 0
IsIdle s = s.pending_ordered ≡ []

length-frames : (m : List (ℕ × Frame)) → length (map (λ e. e.1) m) ≡ length m
length-frames [] = refl
length-frames (e ∷ m) = omega (arith, length-frames m)

length-drain_channels : (cs : List ChannelState) → length (drain_channels cs) ≡ sum_pending cs
unfolding drain_channels
length-drain_channels [] = refl
length-drain_channels (s ∷ cs) = omega (
  arith,
  length-append (map (λ e. e.1) s.pending_ordered) (drain_channels cs),
  length-frames s.pending_ordered,
  length-drain_channels cs,
)

take_pending-IsIdle : (cs : List ChannelState) → All IsIdle (map take_pending cs)
unfolding take_pending
take_pending-IsIdle [] = tt
take_pending-IsIdle (s ∷ cs) = (refl, take_pending-IsIdle cs)

-- Draining hands back as many frames as wait on all channels together, and no frame waits afterwards.
pub drain_pending_ordered_frames_lem :
    (o : OrderingChannels)
    → (length (drain_pending_ordered_frames o).1 ≡ sum_pending o.channels)
      × All IsIdle (drain_pending_ordered_frames o).0.channels
unfolding drain_pending_ordered_frames
drain_pending_ordered_frames_lem o =
    (length-drain_channels o.channels, take_pending-IsIdle o.channels)
