-- ===== src/Session/OrderingChannels.antt =====
-- src/session/ordering_channels.rs: frames that arrive out of order wait for their turn, on each
-- channel apart. The `BTreeMap` of the waiting frames is a map in the order of its keys.
pub mod InOrder
pub mod History
pub mod Kept
pub mod Sequenced
pub mod Drain
mod Tests
use raknet_rust.Common.{
  ℕ, zero, suc, ◌+◌, ◌-◌, max, Bool, true, false, ◌||◌, ◌==◌, ltb, leb, if◌then◌else◌, List, [],
  ◌∷◌, ◌++◌, map, length, get_or, set, replicate, Option, none, some,
}
use raknet_rust.Common.Map.{lookup, insert, remove}
use raknet_rust.Protocol.Sequence24.{Sequence24, next, distance_to, value}
use raknet_rust.Protocol.Frame.{Frame}

pub record ChannelState : Type 0 where
  pub expected_order : Sequence24
  pub last_sequence : Option Sequence24
  pub pending_ordered : List (ℕ × Frame)

abbrev pub default_channel : ChannelState
default_channel = record { expected_order = 0; last_sequence = none; pending_ordered = [] }

pub data OrderedResult : Type 0 where
  ready : List Frame → OrderedResult
  buffered dropped_stale dropped_buffer_full : OrderedResult

pub data SequencedResult : Type 0 where
  accept drop_missing_sequence drop_stale : SequencedResult

pub record OrderingChannels : Type 0 where
  pub channels : List ChannelState
  pub max_pending_per_channel : ℕ
  pub max_gap : ℕ

unfoldable pub new : ℕ → ℕ → ℕ → OrderingChannels
new max_channels max_pending max_gap = record {
  channels = replicate (max max_channels 1) default_channel;
  max_pending_per_channel = max max_pending 1;
  max_gap = max max_gap 1;
}

-- `resize_with(idx + 1, default)` when the index is out of range.
unfoldable pub grow : List ChannelState → ℕ → List ChannelState
grow cs idx =
    if leb (length cs) idx then cs ++ replicate (idx + 1 - length cs) default_channel else cs

unfoldable pub channel_of : Frame → ℕ
channel_of f = elim f.ordering_channel [ some c ↦ c | none ↦ 0 ]

-- `entry(key).or_insert(frame)`.
unfoldable pub or_insert : ℕ → Frame → List (ℕ × Frame) → List (ℕ × Frame)
or_insert k f m = elim (lookup k m) [ some g ↦ m | none ↦ insert k f m ]

-- `while let Some(next) = pending.remove(&expected.value())`. Each round removes an entry, so a round
-- for each is enough.
unfoldable pub release :
    ℕ → Sequence24 → List (ℕ × Frame) → Sequence24 × List Frame × List (ℕ × Frame)
release zero e pending = (e, [], pending)
release (suc fuel) e pending = elim (lookup (value e) pending) [
  | none ↦ (e, [], pending)
  | some f ↦
      let (e', fs, rest) = release fuel (next e) (remove (value e) pending) in (e', f ∷ fs, rest)
]

release_all : ChannelState → Frame → ChannelState × OrderedResult
release_all s frame =
    let (e, fs, rest) =
      release (length s.pending_ordered) (next s.expected_order) s.pending_ordered in
    (record s { expected_order = e; pending_ordered = rest }, ready (frame ∷ fs))

-- The part of `handle_ordered` that works on one channel.
unfoldable pub order_in : ℕ → ℕ → ChannelState → Sequence24 → Frame → ChannelState × OrderedResult
unfolding release_all
order_in max_gap max_pending s order_idx frame =
    let distance = distance_to s.expected_order order_idx in
    if distance == 0
    then release_all s frame
    else if ltb max_gap distance
    then (s, dropped_stale)
    else if leb max_pending (length s.pending_ordered)
    then (s, dropped_buffer_full)
    else (
      record s { pending_ordered = or_insert (value order_idx) frame s.pending_ordered },
      buffered,
    )

store : OrderingChannels → ℕ → List ChannelState → ChannelState → OrderingChannels
store o idx cs s = record o { channels = set cs idx s }

handle_indexed : OrderingChannels → Sequence24 → Frame → OrderingChannels × OrderedResult
unfolding store
handle_indexed o order_idx frame =
    let idx = channel_of frame in
    let cs = grow o.channels idx in
    let (s, result) =
      order_in o.max_gap o.max_pending_per_channel (get_or cs idx default_channel) order_idx
        frame in
    (store o idx cs s, result)

-- A frame with no ordering index is handed over at once.
dispatch : OrderingChannels → Frame → Option Sequence24 → OrderingChannels × OrderedResult
dispatch o frame none = (o, ready (frame ∷ []))
dispatch o frame (some order_idx) = handle_indexed o order_idx frame

unfoldable pub handle_ordered : OrderingChannels → Frame → OrderingChannels × OrderedResult
unfolding dispatch handle_indexed
handle_ordered o frame = dispatch o frame frame.ordering_index

-- A sequenced frame is stale if it is not 1 to `max_gap` steps after the last one.
is_stale : ℕ → Option Sequence24 → Sequence24 → Bool
is_stale max_gap none sequence_idx = false
is_stale max_gap (some last) sequence_idx =
    let distance = distance_to last sequence_idx in distance == 0 || ltb max_gap distance

unfoldable pub sequence_in : ℕ → ChannelState → Sequence24 → ChannelState × SequencedResult
unfolding is_stale
sequence_in max_gap s sequence_idx =
    if is_stale max_gap s.last_sequence sequence_idx
    then (s, drop_stale)
    else (record s { last_sequence = some sequence_idx }, accept)

sequence_indexed : OrderingChannels → Sequence24 → Frame → OrderingChannels × SequencedResult
unfolding store
sequence_indexed o sequence_idx frame =
    let idx = channel_of frame in
    let cs = grow o.channels idx in
    let (s, result) = sequence_in o.max_gap (get_or cs idx default_channel) sequence_idx in
    (store o idx cs s, result)

unfoldable pub handle_sequenced : OrderingChannels → Frame → OrderingChannels × SequencedResult
unfolding sequence_indexed
handle_sequenced o frame = elim frame.sequence_index [
  | none ↦ (o, drop_missing_sequence)
  | some sequence_idx ↦ sequence_indexed o sequence_idx frame
]

take_pending : ChannelState → ChannelState
take_pending s = record s { pending_ordered = [] }

drain_channels : List ChannelState → List Frame
drain_channels [] = []
drain_channels (s ∷ cs) = map (λ e. e.1) s.pending_ordered ++ drain_channels cs

pub drain_pending_ordered_frames : OrderingChannels → OrderingChannels × List Frame
unfolding take_pending drain_channels
drain_pending_ordered_frames o =
    (record o { channels = map take_pending o.channels }, drain_channels o.channels)
