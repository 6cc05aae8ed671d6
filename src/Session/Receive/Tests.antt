-- ===== src/Session/Receive/Tests.antt =====
-- The theorems on received datagrams at concrete frames.
use raknet_rust.Common.{ℕ, ◌≡◌, refl, false, true, [], ◌∷◌, none, some, ok, arith}
use raknet_rust.Protocol.Sequence24.{distance_to}
use raknet_rust.Protocol.Reliability.{Reliability, is_reliable, is_ordered, is_sequenced}
use raknet_rust.Protocol.Frame.{Frame}
use raknet_rust.Protocol.Datagram.{Datagram, datagram_of, frames}
use raknet_rust.Session.AckFlow.{AckFlow}
use raknet_rust.Session.ReliableTracker
use raknet_rust.Session.OrderingChannels
use raknet_rust.Session.OrderingChannels.History.{new-AreChannels}
use raknet_rust.Session.SplitAssembler
use raknet_rust.Session.SplitAssembler.{prune, prune_entries}
use raknet_rust.Session.SplitAssembler.Invariant.{new-IsAssembler}
use raknet_rust.Session.Receive.{
  Receiver, Received, handle_frame, drop_duplicate, handle_frames, ingest_datagram,
}
use raknet_rust.Session.Receive.Duplicates.{
  IsPlain, handle_frames-twice, handle_frame-drop_duplicate,
}
use raknet_rust.Session.Receive.Invariant.{IsReceiver, ingest_datagram-IsReceiver}

abbrev flow : AckFlow
flow = record {
  mtu = 576;
  datagram_read_index = 0;
  outgoing_acks = record { max_ranges = 8; queue = [] };
  outgoing_nacks = record { max_ranges = 8; queue = [] };
  ack_flush_interval = 5;
  nack_flush_interval = 2;
  ack_max_ranges_per_datagram = 48;
  nack_max_ranges_per_datagram = 64;
  next_ack_flush_at = 0;
  next_nack_flush_at = 0;
  ack_out_datagrams = 0;
  nack_out_datagrams = 0;
}

abbrev receiver : Receiver
receiver = record {
  flow = flow;
  reliable_tracker = record { base = 0; seen_ahead = []; max_window = 4096 };
  split_assembler = SplitAssembler.new 5_000_000_000 128 8;
  ordering = OrderingChannels.new 16 64 128;
  incoming_acks = [];
  incoming_nacks = [];
  metrics = record {
    ingress_datagrams = 0;
    ingress_frames = 0;
    duplicate_reliable_drops = 0;
    ordered_stale_drops = 0;
    ordered_buffer_full_drops = 0;
    sequenced_stale_drops = 0;
    sequenced_missing_index_drops = 0;
    split_ttl_drops = 0;
  };
}

abbrev frame_of : ℕ → Frame
frame_of i = record {
  header = record { reliability = Reliability.reliable; is_split = false; needs_bas = false };
  bit_length = 16;
  reliable_index = some i;
  sequence_index = none;
  ordering_index = none;
  ordering_channel = none;
  split = none;
  payload = 1 ∷ 2 ∷ [];
}

frame_of-IsPlain : (i : ℕ) → IsPlain (frame_of i) i
unfolding is_reliable is_ordered is_sequenced
frame_of-IsPlain i = record {
  whole = refl;
  reliable = refl;
  unsequenced = refl;
  unordered = refl;
  index = refl;
}

handle_frames-twice_zero :
    (handle_frames receiver (frame_of 0 ∷ frame_of 0 ∷ []) 7).1 ≡ ok (frame_of 0 ∷ frame_of 0 ∷ [])
handle_frames-twice_zero =
    handle_frames-twice receiver (frame_of 0) 7 (frame_of-IsPlain 0) (omega arith) (omega arith)
      (omega arith)

handle_frame-drop_duplicate_three :
    let again = (handle_frame receiver (frame_of 3) 7).0 in
    handle_frame again (frame_of 3) 7 ≡ (drop_duplicate again, ok [])
handle_frame-drop_duplicate_three =
    handle_frame-drop_duplicate receiver (frame_of 3) 3 7 (frame_of-IsPlain 3) (omega arith)
      (omega arith) (unfold distance_to in omega arith) (unfold distance_to in omega arith)

receiver-IsReceiver : IsReceiver receiver
receiver-IsReceiver = record {
  flow = record { read = omega arith; acks = omega arith; nacks = omega arith };
  tracker = omega arith;
  assembler = new-IsAssembler 5_000_000_000 128 8;
  indices = unfold SplitAssembler.new in tt;
  channels = new-AreChannels 16 64 128;
}

abbrev datagram : Datagram
datagram = datagram_of 0x80 3 (frames (frame_of 0 ∷ []))

ingest_datagram-IsReceiver_gap :
    (x : Received) × (ingest_datagram receiver datagram 7 ≡ some x) × IsReceiver x.0
ingest_datagram-IsReceiver_gap =
    ingest_datagram-IsReceiver receiver datagram 7 receiver-IsReceiver (omega arith) (tt, tt)

-- A part that says it has no parts.
abbrev bad_part : Frame
bad_part = record (frame_of 5) {
  header = record { reliability = Reliability.reliable; is_split = true; needs_bas = false };
  split = some record { part_count = 0; part_id = 1; part_index = 0 };
}

abbrev after_first : Receiver
after_first = (handle_frame receiver (frame_of 3) 7).0

abbrev after_bad : Receiver
after_bad = (handle_frame after_first bad_part 7).0
