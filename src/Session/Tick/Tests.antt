-- ===== src/Session/Tick/Tests.antt =====
-- The theorem on ticks at a session with one frame in its queue.
use raknet_rust.Common.{ℕ, ◌≡◌, refl, List, [], ◌∷◌, some, true, arith}
use raknet_rust.Common.Floats.{thousandths}
use raknet_rust.Protocol.Datagram.{Datagram}
use raknet_rust.Protocol.Frame
use raknet_rust.Protocol.Frame.{bytes_for, payload_len, has_order, fields_size}
use raknet_rust.Protocol.Frame.Samples.{ordered_frame}
use raknet_rust.Protocol.Reliability.{is_reliable, is_ordered, is_sequenced}
use raknet_rust.Session.State.{connected}
use raknet_rust.Session.Outgoing.{QueuedFrame, immediate}
use raknet_rust.Session.Send.Limits.{IsSender}
use raknet_rust.Session.Congestion.{nanoseconds}
use raknet_rust.Session.Congestion.Samples.{fresh}
use raknet_rust.Session.Dispatch.Reference.{first_least}
use raknet_rust.Session.Dispatch.Whole.{IsQueued}
use raknet_rust.Session.Tunables.{default, balanced, flush_settings}
use raknet_rust.Session.Start.{new_flow, new_receiver, new_sender, new_sent}
use raknet_rust.Session.Tick.{Session, nack_first, on_tick}
use raknet_rust.Session.Tick.Bounds.{IsTick, on_tick-IsTick}

abbrev queued : QueuedFrame
queued = record {
  weight = 3;
  encoded_size = 12;
  is_reliable = true;
  priority = immediate;
  receipt_id = some 5;
  frame = ordered_frame 4 0 (7 ∷ 8 ∷ []);
}

abbrev session : Session ℕ
session = record {
  state = connected;
  last_activity = 0;
  last_keepalive_sent = 0;
  ack_nack_priority = nack_first;
  receiver =
      new_receiver {F = ℕ} default (new_flow {F = ℕ} default (flush_settings balanced) 1400 0);
  sender = record (new_sender {F = ℕ} default 1400) {
    outgoing_heap = queued ∷ [];
    outgoing_queued_bytes = 12;
  };
  sent = new_sent fresh;
}

sender-IsSender : IsSender session.sender
unfolding new_sender default
sender-IsSender = record {
  some_frames = omega arith;
  some_bytes = omega arith;
  frame_limit = omega arith;
  byte_limit = omega arith;
  frames = omega arith;
  bytes = omega arith;
  accounted = refl;
}

queued-IsQueued : IsQueued queued
unfolding is_reliable is_ordered is_sequenced Frame.encoded_size fields_size payload_len bytes_for
    has_order
queued-IsQueued = record { size = refl; reliable = refl }

on_tick-IsTick_one :
    (r : Session ℕ × List Datagram) × (on_tick session 20_000_000 4 2000 2 1000 ≡ some r)
    × IsTick session 20_000_000 4 2000 2 1000 r.0 r.1
on_tick-IsTick_one =
    on_tick-IsTick session 20_000_000 4 2000 2 1000 sender-IsSender (queued-IsQueued, tt)
      (unfold new_sent in tt) (unfold new_sender in omega arith) (unfold new_sender in omega arith)
