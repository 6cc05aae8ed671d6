-- ===== src/Session/Outgoing.antt =====
-- src/session/mod.rs: how a payload becomes frames in the queue of a session, whole or in parts. The
-- record has the fields of `Session` that queueing reads and writes. The heap is the list of what it
-- holds, newest last.
pub mod Parts
use raknet_rust.Common.{
  ℕ, zero, suc, ◌+◌, ◌-◌, ◌*◌, ◌/◌, ◌%◌, ◌^◌, min, max, Bool, true, false, not, ◌||◌, leb,
  if◌then◌else◌, List, [], ◌∷◌, ◌++◌, length, take, drop, get_or, set, replicate, Option, none,
  some,
}
use raknet_rust.Common.Int.{saturating_add}
use raknet_rust.Protocol.Constants.{raknet_datagram_header_size}
use raknet_rust.Protocol.Sequence24.{Sequence24, next}
use raknet_rust.Protocol.Reliability.{
  Reliability, unreliable, unreliable_sequenced, reliable, reliable_sequenced,
  unreliable_with_ack_receipt, reliable_with_ack_receipt, is_reliable, is_ordered, is_sequenced,
}
use raknet_rust.Protocol.Frame.{Frame, encoded_size}

pub data RakPriority : Type 0 where
  immediate high normal low : RakPriority

abbrev pub as_index : RakPriority → ℕ
as_index immediate = 0
as_index high = 1
as_index normal = 2
as_index low = 3

pub data BackpressureMode : Type 0 where
  delay shed disconnect : BackpressureMode

pub record QueuedFrame : Type 0 where
  pub weight : ℕ
  pub encoded_size : ℕ
  pub is_reliable : Bool
  pub priority : RakPriority
  pub receipt_id : Option ℕ
  pub frame : Frame

pub record SendMetrics : Type 0 where
  pub outgoing_queue_drops : ℕ
  pub outgoing_queue_defers : ℕ
  pub outgoing_queue_disconnects : ℕ
  pub backpressure_delays : ℕ
  pub backpressure_drops : ℕ
  pub backpressure_disconnects : ℕ

pub record Sender : Type 0 where
  pub mtu : ℕ
  pub reliable_write_index : Sequence24
  pub split_write_index : ℕ
  pub ordering_write_index : List Sequence24
  pub sequencing_write_index : List Sequence24
  pub outgoing_heap : List QueuedFrame
  pub outgoing_next_weights : List ℕ
  pub last_min_weight : ℕ
  pub outgoing_queued_bytes : ℕ
  pub outgoing_queue_max_frames : ℕ
  pub outgoing_queue_max_bytes : ℕ
  pub backpressure_mode : BackpressureMode
  pub disconnect_requested_by_backpressure : Bool
  pub metrics : SendMetrics

unfoldable pub frame_overhead : Reliability → Bool → ℕ
frame_overhead rel is_split =
    3
    + (if is_reliable rel then 3 else 0)
    + (if is_sequenced rel then 3 else 0)
    + (if is_ordered rel || is_sequenced rel then 4 else 0)
    + (if is_split then 10 else 0)

unfoldable pub max_payload_for : Sender → Reliability → Bool → ℕ
max_payload_for s rel is_split =
    max (s.mtu - (raknet_datagram_header_size + frame_overhead rel is_split)) 1

unfoldable pub next_reliable_index : Sender → Sender × Sequence24
next_reliable_index s =
    (record s { reliable_write_index = next s.reliable_write_index }, s.reliable_write_index)

-- `if reliability.is_reliable() { Some(next_reliable_index()) } else { None }`.
unfoldable pub reliable_index_for : Sender → Reliability → Sender × Option Sequence24
unfolding next_reliable_index
reliable_index_for s rel =
    let (s', idx) = next_reliable_index s in if is_reliable rel then (s', some idx) else (s, none)

-- `resize(ch + 1, 0)` when the channel is out of range.
unfoldable pub grow_indices : List Sequence24 → ℕ → List Sequence24
grow_indices xs ch = if leb (length xs) ch then xs ++ replicate (ch + 1 - length xs) 0 else xs

unfoldable pub next_ordering_index_if_needed : Sender → Reliability → ℕ → Sender × Option Sequence24
next_ordering_index_if_needed s rel channel =
    let xs = grow_indices s.ordering_write_index channel in
    let idx = get_or xs channel 0 in
    if not (is_ordered rel || is_sequenced rel)
    then (s, none)
    else (record s { ordering_write_index = set xs channel (next idx) }, some idx)

unfoldable pub next_sequence_index_if_needed : Sender → Reliability → ℕ → Sender × Option Sequence24
next_sequence_index_if_needed s rel channel =
    let xs = grow_indices s.sequencing_write_index channel in
    let idx = get_or xs channel 0 in
    if not (is_sequenced rel)
    then (s, none)
    else (record s { sequencing_write_index = set xs channel (next idx) }, some idx)

-- `(1 << level) * level`.
unfoldable pub level_step : ℕ → ℕ
level_step level = 2 ^ level * level

unfoldable pub first_weights : List ℕ
unfolding level_step
first_weights =
    (level_step 0 + 0) ∷ (level_step 1 + 1) ∷ (level_step 2 + 2) ∷ (level_step 3 + 3) ∷ []

abbrev pub is_idle : List QueuedFrame → Bool
is_idle [] = true
is_idle (q ∷ qs) = false

-- The weights stay far below 2 ^ 64, and the subtraction does not go below 0.
unfoldable pub next_weight : Sender → RakPriority → Sender × ℕ
unfolding first_weights
next_weight s priority =
    let level = as_index priority in
    let stored = get_or s.outgoing_next_weights level 0 in
    let raised = s.last_min_weight + level_step level + level in
    let further = raised + 2 ^ level * (level + 1) + level in
    if is_idle s.outgoing_heap
    then (
      record s {
        outgoing_next_weights = first_weights;
        last_min_weight = stored - level_step level + level;
      },
      stored,
    )
    else if leb s.last_min_weight stored
    then (
      record s {
        outgoing_next_weights = set s.outgoing_next_weights level further;
        last_min_weight = raised - level_step level + level;
      },
      raised,
    )
    else (record s { last_min_weight = stored - level_step level + level }, stored)

unfoldable pub push_outgoing_frame : Sender → Frame → RakPriority → Option ℕ → Sender
push_outgoing_frame s frame priority receipt_id =
    let (s, weight) = next_weight s priority in
    record s {
      outgoing_queued_bytes = saturating_add s.outgoing_queued_bytes (encoded_size frame);
      outgoing_heap =
          s.outgoing_heap
          ++ (record {
            weight = weight;
            encoded_size = encoded_size frame;
            is_reliable = is_reliable frame.header.reliability;
            priority = priority;
            receipt_id = receipt_id;
            frame = frame;
          }
              ∷ []);
    }

-- `(len as u16) << 3`.
unfoldable pub bit_length_of : ℕ → ℕ
bit_length_of len = len % 2 ^ 16 * 8 % 2 ^ 16

-- `ordering_index.map(|_| channel)`.
abbrev pub channel_for : Option Sequence24 → ℕ → Option ℕ
channel_for none channel = none
channel_for (some i) channel = some channel

unfoldable pub enqueue_single_frame :
    Sender → List ℕ → Reliability → ℕ → RakPriority → Option ℕ → Sender × ℕ
enqueue_single_frame s payload rel channel priority receipt_id =
    let (s, ordering_index) = next_ordering_index_if_needed s rel channel in
    let (s, sequence_index) = next_sequence_index_if_needed s rel channel in
    let (s, reliable_index) = reliable_index_for s rel in
    let frame : Frame = record {
      header = record { reliability = rel; is_split = false; needs_bas = false };
      bit_length = bit_length_of (length payload);
      reliable_index = reliable_index;
      sequence_index = sequence_index;
      ordering_index = ordering_index;
      ordering_channel = channel_for ordering_index channel;
      split = none;
      payload = payload;
    } in
    (
      push_outgoing_frame s frame priority receipt_id,
      if is_reliable rel then encoded_size frame else 0,
    )

unfoldable pub normalize_reliability_for_split : Reliability → Reliability
normalize_reliability_for_split unreliable = reliable
normalize_reliability_for_split unreliable_sequenced = reliable_sequenced
normalize_reliability_for_split unreliable_with_ack_receipt = reliable_with_ack_receipt
normalize_reliability_for_split v = v

-- `div_ceil`, for a divisor that is not 0.
unfoldable pub div_ceil : ℕ → ℕ → ℕ
div_ceil a b = (a + (b - 1)) / b

-- What the parts of a payload share.
pub record PartContext : Type 0 where
  pub reliability : Reliability
  pub max_split_payload : ℕ
  pub part_count : ℕ
  pub split_id : ℕ
  pub ordering_index : Option Sequence24
  pub sequence_index : Option Sequence24
  pub channel : ℕ
  pub priority : RakPriority
  pub receipt_id : Option ℕ

unfoldable pub part_of : PartContext → ℕ → Option Sequence24 → List ℕ → Frame
part_of c idx reliable_index part = record {
  header = record { reliability = c.reliability; is_split = true; needs_bas = false };
  bit_length = bit_length_of (length part);
  reliable_index = reliable_index;
  sequence_index = c.sequence_index;
  ordering_index = c.ordering_index;
  ordering_channel = channel_for c.ordering_index c.channel;
  split = some record {
    part_count = c.part_count % 2 ^ 32;
    part_id = c.split_id;
    part_index = idx % 2 ^ 32;
  };
  payload = part;
}

-- `for idx in 0..part_count`, from `idx` on with `left` rounds to go.
unfoldable pub enqueue_parts : ℕ → PartContext → ℕ → Sender → List ℕ → Sender × ℕ
enqueue_parts zero c idx s payload = (s, 0)
enqueue_parts (suc left) c idx s payload =
    let taken = min (length payload) c.max_split_payload in
    let (s, reliable_index) = reliable_index_for s c.reliability in
    let frame = part_of c idx reliable_index (take taken payload) in
    let s = push_outgoing_frame s frame c.priority c.receipt_id in
    let (s, reliable_bytes) = enqueue_parts left c (idx + 1) s (drop taken payload) in
    (s, (if is_reliable c.reliability then encoded_size frame else 0) + reliable_bytes)

unfoldable pub next_split_id : Sender → Sender
next_split_id s = record s { split_write_index = (s.split_write_index + 1) % 2 ^ 16 }

unfoldable pub enqueue_split_frames :
    Sender → List ℕ → Reliability → ℕ → RakPriority → Option ℕ → Sender × ℕ
enqueue_split_frames s payload rel channel priority receipt_id =
    let rel = normalize_reliability_for_split rel in
    let max_split_payload = max (max_payload_for s rel true) 1 in
    let part_count = div_ceil (length payload) max_split_payload in
    let (o, ordering_index) = next_ordering_index_if_needed (next_split_id s) rel channel in
    let (q, sequence_index) = next_sequence_index_if_needed o rel channel in
    enqueue_parts part_count
      record {
        reliability = rel;
        max_split_payload = max_split_payload;
        part_count = part_count;
        split_id = s.split_write_index;
        ordering_index = ordering_index;
        sequence_index = sequence_index;
        channel = channel;
        priority = priority;
        receipt_id = receipt_id;
      }
      0 q payload
