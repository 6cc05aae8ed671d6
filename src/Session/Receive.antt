-- ===== src/Session/Receive.antt =====
-- src/session/mod.rs: what a session does with a datagram. The record has the fields of `Session` that
-- receiving reads and writes.
pub mod Invariant
pub mod Errors
pub mod Duplicates
mod Tests
use raknet_rust.Common.{
  ℕ, ◌+◌, Bool, true, false, not, ◌&&◌, if◌then◌else◌, List, [], ◌∷◌, ◌++◌, length, Option, none,
  some, Result, ok, err, ◌>>=◌,
}
use raknet_rust.Common.Int.{saturating_add}
use raknet_rust.Protocol.Errors.{DecodeError}
use raknet_rust.Protocol.Sequence24.{Sequence24}
use raknet_rust.Protocol.Ack.{SequenceRange, AckNackPayload}
use raknet_rust.Protocol.Reliability.{is_reliable, is_ordered, is_sequenced}
use raknet_rust.Protocol.Frame.{Frame, reliability_of}
use raknet_rust.Protocol.Datagram.{Datagram, DatagramPayload, frames, ack, nack}
use raknet_rust.Session.ReliableTracker
use raknet_rust.Session.ReliableTracker.{ReliableTracker, see, has_seen}
use raknet_rust.Session.SplitAssembler
use raknet_rust.Session.SplitAssembler.{SplitAssembler, prune}
use raknet_rust.Session.OrderingChannels.{
  OrderingChannels, OrderedResult, ready, buffered, dropped_stale, dropped_buffer_full,
  SequencedResult, accept, drop_missing_sequence, drop_stale, handle_ordered, handle_sequenced,
}
use raknet_rust.Session.AckFlow.{AckFlow, process_datagram_sequence}

pub record ReceiveMetrics : Type 0 where
  pub ingress_datagrams : ℕ
  pub ingress_frames : ℕ
  pub duplicate_reliable_drops : ℕ
  pub ordered_stale_drops : ℕ
  pub ordered_buffer_full_drops : ℕ
  pub sequenced_stale_drops : ℕ
  pub sequenced_missing_index_drops : ℕ
  pub split_ttl_drops : ℕ

pub record Receiver : Type 0 where
  pub flow : AckFlow
  pub reliable_tracker : ReliableTracker
  pub split_assembler : SplitAssembler
  pub ordering : OrderingChannels
  pub incoming_acks : List SequenceRange
  pub incoming_nacks : List SequenceRange
  pub metrics : ReceiveMetrics

-- The frames that are handed over, or the error.
abbrev pub Received : Type 0
Received = Receiver × Result DecodeError (List Frame)

-- `reliable_index` where it counts: on a reliable frame that is no part.
unfoldable pub tracked_index : Frame → Option Sequence24
tracked_index f =
    if is_reliable (reliability_of f) && not f.header.is_split then f.reliable_index else none

unfoldable pub is_duplicate : ReliableTracker → Option Sequence24 → Bool
is_duplicate t none = false
is_duplicate t (some ridx) = has_seen t ridx

-- `let _ = see(ridx)`.
unfoldable pub note_index : ReliableTracker → Option Sequence24 → ReliableTracker
note_index t none = t
note_index t (some ridx) = (see t ridx).0

unfoldable pub count_sequenced : ReceiveMetrics → SequencedResult → ReceiveMetrics
count_sequenced m accept = m
count_sequenced m drop_missing_sequence = record m {
  sequenced_missing_index_drops = saturating_add m.sequenced_missing_index_drops 1;
}
count_sequenced m drop_stale = record m {
  sequenced_stale_drops = saturating_add m.sequenced_stale_drops 1;
}

unfoldable pub sequenced_out : Frame → SequencedResult → List Frame
sequenced_out f accept = f ∷ []
sequenced_out f drop_missing_sequence = []
sequenced_out f drop_stale = []

unfoldable pub count_ordered : ReceiveMetrics → OrderedResult → ReceiveMetrics
count_ordered m (ready fs) = m
count_ordered m buffered = m
count_ordered m dropped_stale = record m {
  ordered_stale_drops = saturating_add m.ordered_stale_drops 1;
}
count_ordered m dropped_buffer_full = record m {
  ordered_buffer_full_drops = saturating_add m.ordered_buffer_full_drops 1;
}

unfoldable pub ordered_out : OrderedResult → List Frame
ordered_out (ready fs) = fs
ordered_out buffered = []
ordered_out dropped_stale = []
ordered_out dropped_buffer_full = []

-- A whole frame goes to its channel, or is handed over at once.
unfoldable pub route_frame : Receiver → Frame → Receiver × List Frame
route_frame r f =
    let (o, sequenced) = handle_sequenced r.ordering f in
    let (o', ordered) = handle_ordered r.ordering f in
    if is_sequenced (reliability_of f)
    then (
      record r { ordering = o; metrics = count_sequenced r.metrics sequenced },
      sequenced_out f sequenced,
    )
    else if is_ordered (reliability_of f)
    then (
      record r { ordering = o'; metrics = count_ordered r.metrics ordered },
      ordered_out ordered,
    )
    else (r, f ∷ [])

-- `frame` as it came, and what the assembler made of it.
unfoldable pub after_assembly :
    Receiver → Frame → SplitAssembler → Result DecodeError (Option Frame) → Received
after_assembly r frame a (err e) = (record r { split_assembler = a }, err e)
after_assembly r frame a (ok none) = (record r { split_assembler = a }, ok [])
after_assembly r frame a (ok (some whole)) =
    let noted = record r {
      split_assembler = a;
      reliable_tracker =
          if not frame.header.is_split && is_reliable (reliability_of whole)
          then note_index r.reliable_tracker whole.reliable_index
          else r.reliable_tracker;
    } in
    let (routed, out) = route_frame noted whole in (routed, ok out)

unfoldable pub drop_duplicate : Receiver → Receiver
drop_duplicate r = record r {
  metrics = record r.metrics {
    duplicate_reliable_drops = saturating_add r.metrics.duplicate_reliable_drops 1;
  };
}

-- One round of the loop over the frames: what it appends to `out`, or the error that ends it.
unfoldable pub handle_frame : Receiver → Frame → ℕ → Received
handle_frame r frame now =
    let (a, assembled) = SplitAssembler.add r.split_assembler frame now in
    if is_duplicate r.reliable_tracker (tracked_index frame)
    then (drop_duplicate r, ok [])
    else after_assembly r frame a assembled

unfoldable pub append_out : List Frame → Received → Received
append_out out (r, ok more) = (r, ok (out ++ more))
append_out out (r, err e) = (r, err e)

-- An error leaves the loop with the state as it is, and without the frames before it.
unfoldable pub continue_with : Received → (Receiver → Received) → Received
unfolding append_out
continue_with (r, err e) next = (r, err e)
continue_with (r, ok out) next = append_out out (next r)

unfoldable pub handle_frames : Receiver → List Frame → ℕ → Received
unfolding continue_with
handle_frames r [] now = (r, ok [])
handle_frames r (f ∷ fs) now = continue_with (handle_frame r f now) λ r. handle_frames r fs now

unfoldable pub handle_ack_payload : Receiver → AckNackPayload → Receiver
handle_ack_payload r p = record r { incoming_acks = r.incoming_acks ++ p.ranges }

unfoldable pub handle_nack_payload : Receiver → AckNackPayload → Receiver
handle_nack_payload r p = record r { incoming_nacks = r.incoming_nacks ++ p.ranges }

unfoldable pub count_datagram : Receiver → Receiver
count_datagram r = record r {
  metrics = record r.metrics { ingress_datagrams = saturating_add r.metrics.ingress_datagrams 1 };
}

unfoldable pub count_frames : Receiver → ℕ → Receiver
count_frames r n = record r {
  metrics = record r.metrics { ingress_frames = saturating_add r.metrics.ingress_frames n };
}

unfoldable pub ingest_frames : Receiver → Option AckFlow → List Frame → ℕ → Option Received
ingest_frames r none fs now = none
ingest_frames r (some flow) fs now = some (handle_frames (record r { flow = flow }) fs now)

unfoldable pub ingest_payload : Receiver → Sequence24 → DatagramPayload → ℕ → Option Received
unfolding count_frames ingest_frames handle_ack_payload handle_nack_payload
ingest_payload r seq (ack p) now = some (handle_ack_payload r p, ok [])
ingest_payload r seq (nack p) now = some (handle_nack_payload r p, ok [])
ingest_payload r seq (frames fs) now =
    ingest_frames (count_frames r (length fs)) (process_datagram_sequence r.flow seq now) fs now

-- `none` as in `process_datagram_sequence`.
unfoldable pub ingest_datagram : Receiver → Datagram → ℕ → Option Received
unfolding count_datagram ingest_payload
ingest_datagram r d now = ingest_payload (count_datagram r) d.header.sequence d.payload now

unfoldable pub prune_split_state : Receiver → ℕ → Receiver × ℕ
prune_split_state r now =
    let (a, dropped) = prune r.split_assembler now in
    (
      record r {
        split_assembler = a;
        metrics = record r.metrics {
          split_ttl_drops = saturating_add r.metrics.split_ttl_drops dropped;
        };
      },
      dropped,
    )
