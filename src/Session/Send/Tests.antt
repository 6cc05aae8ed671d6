-- ===== src/Session/Send/Tests.antt =====
-- The theorems on queueing at concrete payloads.
use raknet_rust.Common.{
  ℕ, ◌/◌, ◌≤◌, ◌≡◌, ◌↔◌, ◌⊎◌, refl, inr, false, max, List, [], ◌∷◌, length, replicate, get_elem?,
  get_or, none, some, arith,
}
use raknet_rust.Common.Map.{lookup}
use raknet_rust.Protocol.Reliability.{
  unreliable, reliable_ordered, is_reliable, is_ordered, is_sequenced,
}
use raknet_rust.Protocol.Frame.{Frame}
use raknet_rust.Session.SplitAssembler.{new, new_entry, prune, prune_entries, add}
use raknet_rust.Session.SplitAssembler.Parts.{concat}
use raknet_rust.Session.SplitAssembler.Invariant.{new-IsAssembler}
use raknet_rust.Session.SplitAssembler.Reassembly.{Advances, Holds}
use raknet_rust.Session.Outgoing.{
  immediate, low, shed, disconnect, Sender, part_of, div_ceil, enqueue_split_frames, enqueue_parts,
  push_outgoing_frame, reliable_index_for, max_payload_for, normalize_reliability_for_split,
  next_split_id, next_ordering_index_if_needed, next_sequence_index_if_needed, frame_overhead,
  next_weight,
}
use raknet_rust.Session.Send.{
  dropped, disconnect_requested, enqueued, SoftLimit, estimate_queue_impact, enqueue,
  queue_payload_with_receipt,
}
use raknet_rust.Session.Outgoing.Parts.{frames_of}
use raknet_rust.Session.Send.Estimate.{Adds, enqueue-estimate_queue_impact}
use raknet_rust.Session.Send.Limits.{IsSender, OverHard, queue_payload_with_receipt-IsSender}
use raknet_rust.Session.Send.Refused.{IsExpendable, queue_payload_refused}
use raknet_rust.Session.Send.Reassembly.{payloads, info, add-enqueue_split_frames}

-- Half of the limit.
soft-pos_half : (n : ℕ) → 1 ≤ max (n / 2) 1
soft-pos_half n = ground arith

soft-le_half : (n : ℕ) → 1 ≤ n → max (n / 2) 1 ≤ n
soft-le_half n h = ground arith

instance abbrev half : SoftLimit
half = record { soft = λ n. max (n / 2) 1; soft-pos = soft-pos_half; soft-le = soft-le_half }

abbrev sender : Sender
sender = record {
  mtu = 60;
  reliable_write_index = 16_777_215;
  split_write_index = 65_535;
  ordering_write_index = replicate 16 0;
  sequencing_write_index = replicate 16 0;
  outgoing_heap = [];
  outgoing_next_weights = 0 ∷ 3 ∷ 10 ∷ 27 ∷ [];
  last_min_weight = 0;
  outgoing_queued_bytes = 0;
  outgoing_queue_max_frames = 2;
  outgoing_queue_max_bytes = 500;
  backpressure_mode = shed;
  disconnect_requested_by_backpressure = false;
  metrics = record {
    outgoing_queue_drops = 0;
    outgoing_queue_defers = 0;
    outgoing_queue_disconnects = 0;
    backpressure_delays = 0;
    backpressure_drops = 0;
    backpressure_disconnects = 0;
  };
}

abbrev text : List ℕ
text = replicate 90 7

enqueue-estimate_queue_impact_three :
    let (frames, bytes, effective) = estimate_queue_impact sender (length text) unreliable in
    Adds sender (enqueue sender text unreliable 0 low none).0 frames bytes
enqueue-estimate_queue_impact_three =
    enqueue-estimate_queue_impact sender text unreliable 0 low none (omega arith) (omega arith)

sender-IsSender : IsSender sender
sender-IsSender = record {
  some_frames = omega arith;
  some_bytes = omega arith;
  frame_limit = omega arith;
  byte_limit = omega arith;
  frames = omega arith;
  bytes = omega arith;
  accounted = refl;
}

queue_payload_with_receipt-IsSender_three :
    IsSender (queue_payload_with_receipt sender text reliable_ordered 3 immediate (some 9)).0
queue_payload_with_receipt-IsSender_three =
    queue_payload_with_receipt-IsSender sender text reliable_ordered 3 immediate (some 9)
      sender-IsSender (omega arith)

queue_payload_refused_three :
    let (frames, bytes, effective) = estimate_queue_impact sender (length text) unreliable in
    let r = queue_payload_with_receipt sender text unreliable 0 low none in
    ((r.1 ≡ disconnect_requested) ↔ (OverHard sender frames bytes × (shed ≡ disconnect)))
    × ((r.1 ≡ dropped)
        ↔ (OverHard sender frames bytes × (shed ≡ shed) × IsExpendable sender text unreliable low))
    × ((r.0.outgoing_heap ≡ []) ⊎ ((n : ℕ) × (r.1 ≡ enqueued n)))
queue_payload_refused_three =
    queue_payload_refused sender text unreliable 0 low none sender-IsSender

-- Ninety bytes do not fit into one frame.
abbrev queued : List Frame
queued = frames_of (enqueue_split_frames sender text reliable_ordered 2 low none).0.outgoing_heap

abbrev filler : Frame
filler =
    part_of
      record {
        reliability = reliable_ordered;
        max_split_payload = 2;
        part_count = 3;
        split_id = 9;
        ordering_index = some 4;
        sequence_index = none;
        channel = 2;
        priority = low;
        receipt_id = none;
      }
      1 none []

abbrev second : Frame
second = get_or queued 1 filler

length-queued : length queued ≡ 3
unfolding enqueue_split_frames enqueue_parts push_outgoing_frame reliable_index_for div_ceil
    max_payload_for normalize_reliability_for_split is_reliable next_split_id
    next_ordering_index_if_needed next_sequence_index_if_needed frame_overhead is_sequenced
    is_ordered next_weight
length-queued = refl

second_lem : get_elem? queued 1 ≡ some second
unfolding enqueue_split_frames enqueue_parts push_outgoing_frame reliable_index_for div_ceil
    max_payload_for normalize_reliability_for_split is_reliable next_split_id
    next_ordering_index_if_needed next_sequence_index_if_needed frame_overhead is_sequenced
    is_ordered next_weight
second_lem = refl

add-enqueue_split_frames_second :
    Advances
      (payloads queued)
      65_535
      (new_entry second (info (length queued) 65_535 1) 10)
      1
      (add (new 5_000_000_000 128 8) second 10)
    × (concat (payloads queued) ≡ text)
add-enqueue_split_frames_second =
    add-enqueue_split_frames sender text reliable_ordered 2 low none queued
      (new 5_000_000_000 128 8) 10 1 second (new_entry second (info (length queued) 65_535 1) 10)
      (omega arith) refl (omega (arith, length-queued))
      (unfold new prune prune_entries in omega (arith, length-queued))
      (new-IsAssembler 5_000_000_000 128 8) second_lem
      (unfold Holds new prune prune_entries lookup in inr (refl, omega arith, refl))
