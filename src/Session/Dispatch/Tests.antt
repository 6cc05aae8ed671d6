-- ===== src/Session/Dispatch/Tests.antt =====
-- The theorems on building datagrams at a queue of two frames.
use raknet_rust.Common.{
  ℕ, ◌≡◌, refl, true, false, List, [], ◌∷◌, replicate, All, Option, none, some, arith,
}
use raknet_rust.Common.Floats.{thousandths}
use raknet_rust.Protocol.Reliability.{is_reliable, is_ordered, is_sequenced}
use raknet_rust.Protocol.Frame
use raknet_rust.Protocol.Frame.{bytes_for, payload_len, has_order, fields_size}
use raknet_rust.Protocol.Frame.Samples.{ordered_frame}
use raknet_rust.Session.Outgoing.{QueuedFrame, Sender, immediate, low, shed}
use raknet_rust.Session.Send.Limits.{IsSender}
use raknet_rust.Session.Congestion.Samples.{fresh}
use raknet_rust.Session.Sent.{Sent}
use raknet_rust.Session.Dispatch.{Built, fits, pop_next_frame_for_datagram, build_data_datagram}
use raknet_rust.Session.Dispatch.Pick.{IsPicked, pop_next_frame_for_datagram-IsPicked}
use raknet_rust.Session.Dispatch.Whole.{IsQueued, IsBuilt, build_data_datagram-IsBuilt}
use raknet_rust.Session.Dispatch.Reference.{first_least}

abbrev light : QueuedFrame
light = record {
  weight = 3;
  encoded_size = 12;
  is_reliable = true;
  priority = immediate;
  receipt_id = some 5;
  frame = ordered_frame 4 0 (7 ∷ 8 ∷ []);
}

abbrev heavy : QueuedFrame
heavy = record {
  weight = 27;
  encoded_size = 11;
  is_reliable = true;
  priority = low;
  receipt_id = none;
  frame = ordered_frame 5 0 (9 ∷ []);
}

abbrev sender : Sender
sender = record {
  mtu = 20;
  reliable_write_index = 2;
  split_write_index = 0;
  ordering_write_index = replicate 16 0;
  sequencing_write_index = replicate 16 0;
  outgoing_heap = heavy ∷ light ∷ [];
  outgoing_next_weights = 0 ∷ 3 ∷ 10 ∷ 27 ∷ [];
  last_min_weight = 0;
  outgoing_queued_bytes = 23;
  outgoing_queue_max_frames = 8;
  outgoing_queue_max_bytes = 500;
  backpressure_mode = shed;
  disconnect_requested_by_backpressure = false;
  metrics = record {
    outgoing_queue_drops = 0;
    outgoing_queue_defers = 0;
    outgoing_queue_disconnects = 0;
    backpressure_delays = 0;
    backpressure_drops = 0;
    backpressure_disconnects = 0;
  };
}

sender-IsSender : IsSender sender
sender-IsSender = record {
  some_frames = omega arith;
  some_bytes = omega arith;
  frame_limit = omega arith;
  byte_limit = omega arith;
  frames = omega arith;
  bytes = omega arith;
  accounted = refl;
}

queued : All IsQueued sender.outgoing_heap
unfolding is_reliable is_ordered is_sequenced Frame.encoded_size fields_size payload_len bytes_for
    has_order
queued = (record { size = refl; reliable = refl }, (record { size = refl; reliable = refl }, tt))

abbrev sent : Sent ℕ
sent = record {
  datagram_write_index = 9;
  sent_datagrams = [];
  receipt_tracking = [];
  congestion = fresh;
  metrics = record {
    reliable_sent_datagrams = 0;
    resent_datagrams = 0;
    acked_datagrams = 0;
    nacked_datagrams = 0;
  };
}

pop_next_frame_for_datagram-IsPicked_light :
    (r : Option QueuedFrame × List QueuedFrame) × (pop_next_frame_for_datagram sender true 4 100
      ≡ some r)
    × IsPicked (fits 20 true 4 100) sender.outgoing_heap [] r.0 r.1
pop_next_frame_for_datagram-IsPicked_light = pop_next_frame_for_datagram-IsPicked sender true 4 100

build_data_datagram-IsBuilt_light :
    (b : Built ℕ) × (build_data_datagram sent sender 70 100 ≡ some b) × IsBuilt sent sender 100 b
build_data_datagram-IsBuilt_light =
    build_data_datagram-IsBuilt sent sender 70 100 sender-IsSender queued (omega arith)
      (omega arith)
