-- ===== src/Session/AckFlow.antt =====
-- src/session/mod.rs: which datagrams have come, and the acknowledgements that go out for them. The
-- record has the fields of `Session` that this part reads and writes; an instant is a number.
pub mod Chunks
pub mod Gap
pub mod Asked
pub mod Drain
mod Tests
use raknet_rust.Common.{
  ℕ, zero, suc, ◌+◌, ◌-◌, Bool, true, false, ◌==◌, if◌then◌else◌, List, [], ◌∷◌, Option, none, some,
}
use raknet_rust.Common.Int.{saturating_add}
use raknet_rust.Protocol.Constants.{max_ack_sequences}
use raknet_rust.Protocol.Sequence24.{Sequence24, next, prev, gt, lt}
use raknet_rust.Protocol.Ack.{SequenceRange, range_of, AckNackPayload}
use raknet_rust.Protocol.Datagram.{Datagram, datagram_of, ack, nack}
use raknet_rust.Session.AckQueue.{AckQueue, push, pop_for_mtu}

pub record AckFlow : Type 0 where
  pub mtu : ℕ
  pub datagram_read_index : Sequence24
  pub outgoing_acks : AckQueue
  pub outgoing_nacks : AckQueue
  pub ack_flush_interval : ℕ
  pub nack_flush_interval : ℕ
  pub ack_max_ranges_per_datagram : ℕ
  pub nack_max_ranges_per_datagram : ℕ
  pub next_ack_flush_at : ℕ
  pub next_nack_flush_at : ℕ
  pub ack_out_datagrams : ℕ
  pub nack_out_datagrams : ℕ

abbrev pub is_empty : AckQueue → Bool
is_empty q = elim q.queue [ [] ↦ true | r ∷ rs ↦ false ]

-- A number that has come. The first in an empty queue sets the time to send.
unfoldable pub push_ack : AckFlow → Sequence24 → ℕ → AckFlow
push_ack s seq now = record s {
  outgoing_acks = push s.outgoing_acks (range_of seq seq);
  next_ack_flush_at =
      if is_empty s.outgoing_acks then now + s.ack_flush_interval else s.next_ack_flush_at;
}

-- Numbers that are missing.
unfoldable pub push_nack : AckFlow → SequenceRange → ℕ → AckFlow
push_nack s range now = record s {
  outgoing_nacks = push s.outgoing_nacks range;
  next_nack_flush_at =
      if is_empty s.outgoing_nacks then now + s.nack_flush_interval else s.next_nack_flush_at;
}

-- The inner loop, which moves the end of a chunk: `left` more steps are allowed.
unfoldable pub extend_chunk : ℕ → Sequence24 → Sequence24 → Sequence24
extend_chunk zero chunk_end nack_end = chunk_end
extend_chunk (suc left) chunk_end nack_end =
    let further = extend_chunk left (next chunk_end) nack_end in
    if lt chunk_end nack_end then further else chunk_end

-- The outer loop, on fuel.
unfoldable pub push_nacks : ℕ → AckFlow → Sequence24 → Sequence24 → ℕ → Option AckFlow
push_nacks zero s nack_start nack_end now = none
push_nacks (suc fuel) s nack_start nack_end now =
    let chunk_end = extend_chunk (max_ack_sequences - 1) nack_start nack_end in
    let s = push_nack s (range_of nack_start chunk_end) now in
    let rest = push_nacks fuel s (next chunk_end) nack_end now in
    if chunk_end == nack_end then some s else rest

unfoldable pub ack_after : Option AckFlow → Sequence24 → ℕ → Option AckFlow
ack_after (some s) seq now = some (push_ack s seq now)
ack_after none seq now = none

unfoldable pub nack_gap : AckFlow → Sequence24 → Sequence24 → ℕ → Option AckFlow
unfolding ack_after
nack_gap s expected seq now = ack_after (push_nacks 1024 s expected (prev seq) now) seq now

-- `none` stands for a loop that does not end in 1024 rounds.
unfoldable pub process_datagram_sequence : AckFlow → Sequence24 → ℕ → Option AckFlow
unfolding nack_gap
process_datagram_sequence s seq now =
    let expected = s.datagram_read_index in
    let moved = record s { datagram_read_index = next seq } in
    if gt expected seq
    then some (push_ack s seq now)
    else if seq == expected
    then some (push_ack moved seq now)
    else nack_gap moved expected seq now

-- The flags are VALID | ACK and VALID | NACK.
unfoldable pub send_acks : AckFlow → ℕ → AckQueue → List SequenceRange → AckFlow × Option Datagram
send_acks s now q [] = (record s { outgoing_acks = q }, none)
send_acks s now q (r ∷ rs) = (
  record s {
    outgoing_acks = q;
    next_ack_flush_at = now + s.ack_flush_interval;
    ack_out_datagrams = saturating_add s.ack_out_datagrams 1;
  },
  some (datagram_of 0xC0 0 (ack record { ranges = r ∷ rs })),
)

unfoldable pub drain_ack_datagram : AckFlow → ℕ → AckFlow × Option Datagram
drain_ack_datagram s now =
    let (q, ranges) = pop_for_mtu s.outgoing_acks s.mtu 3 s.ack_max_ranges_per_datagram in
    send_acks s now q ranges

unfoldable pub send_nacks : AckFlow → ℕ → AckQueue → List SequenceRange → AckFlow × Option Datagram
send_nacks s now q [] = (record s { outgoing_nacks = q }, none)
send_nacks s now q (r ∷ rs) = (
  record s {
    outgoing_nacks = q;
    next_nack_flush_at = now + s.nack_flush_interval;
    nack_out_datagrams = saturating_add s.nack_out_datagrams 1;
  },
  some (datagram_of 0xA0 0 (nack record { ranges = r ∷ rs })),
)

unfoldable pub drain_nack_datagram : AckFlow → ℕ → AckFlow × Option Datagram
drain_nack_datagram s now =
    let (q, ranges) = pop_for_mtu s.outgoing_nacks s.mtu 3 s.nack_max_ranges_per_datagram in
    send_nacks s now q ranges

unfoldable pub force_control_flush_deadlines : AckFlow → ℕ → AckFlow
force_control_flush_deadlines s now = record s {
  next_ack_flush_at = if is_empty s.outgoing_acks then s.next_ack_flush_at else now;
  next_nack_flush_at = if is_empty s.outgoing_nacks then s.next_nack_flush_at else now;
}
