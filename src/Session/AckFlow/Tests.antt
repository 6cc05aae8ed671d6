-- ===== src/Session/AckFlow/Tests.antt =====
-- The theorems on acknowledgements at concrete datagrams.
use raknet_rust.Common.{◌≤◌, ◌≡◌, ◌⊎◌, refl, [], ◌∷◌, ◌++◌, length, some, arith}
use raknet_rust.Protocol.Sequence24.{distance_to, gt, cmp, value}
use raknet_rust.Protocol.Ack.{range_of, split_wrapping, encoded_size}
use raknet_rust.Protocol.Datagram.{Datagram, datagram_of, ack}
use raknet_rust.Protocol.Datagram
use raknet_rust.Session.AckQueue.{pop_for_mtu, pop_loop, wire_size}
use raknet_rust.Session.AckFlow.{AckFlow, process_datagram_sequence, send_acks, drain_ack_datagram}
use raknet_rust.Session.AckFlow.Asked.{AsksFor, process_datagram_sequence-AsksFor}
use raknet_rust.Session.AckFlow.Drain.{ranges_of, drain_ack_datagram_lem}

abbrev flow : AckFlow
flow = record {
  mtu = 576;
  datagram_read_index = 16_777_215;
  outgoing_acks = record { max_ranges = 8; queue = range_of 3 5 ∷ [] };
  outgoing_nacks = record { max_ranges = 8; queue = [] };
  ack_flush_interval = 5;
  nack_flush_interval = 2;
  ack_max_ranges_per_datagram = 48;
  nack_max_ranges_per_datagram = 64;
  next_ack_flush_at = 0;
  next_nack_flush_at = 0;
  ack_out_datagrams = 0;
  nack_out_datagrams = 0;
}

process_datagram_sequence-AsksFor_wrap :
    (s' : AckFlow) × (process_datagram_sequence flow 20_000 10 ≡ some s') × AsksFor flow s' 20_000
process_datagram_sequence-AsksFor_wrap =
    process_datagram_sequence-AsksFor flow 20_000 10 (omega arith) (omega arith)
      (unfold gt cmp value in refl) (unfold distance_to in refl) (omega arith) refl

abbrev sent : Datagram
sent = datagram_of 0xC0 0 (ack record { ranges = range_of 3 5 ∷ [] })

drained : (drain_ack_datagram flow 10).1 ≡ some sent
unfolding drain_ack_datagram send_acks pop_for_mtu pop_loop wire_size split_wrapping encoded_size
drained = refl

drain_ack_datagram_one :
    (ranges_of sent ++ (drain_ack_datagram flow 10).0.outgoing_acks.queue ≡ range_of 3 5 ∷ [])
    × (1 ≤ length (ranges_of sent))
    × (length (ranges_of sent) ≤ 48)
    × ((Datagram.encoded_size sent ≤ 576) ⊎ (length (ranges_of sent) ≡ 1))
drain_ack_datagram_one = drain_ack_datagram_lem flow 10 sent drained
