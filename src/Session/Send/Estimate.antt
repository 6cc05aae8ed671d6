-- ===== src/Session/Send/Estimate.antt =====
-- What a payload adds to the queue, against the estimate.
use native.Mathlib.Nat.{div-add-mod, mod-lt}
use raknet_rust.Common.{
  ℕ, zero, suc, ◌+◌, ◌-◌, ◌*◌, ◌≤◌, ◌<◌, ◌≡◌, refl, ap, ◌∙◌, inl, inr, min, max, Bool, true, false,
  ◌||◌, leb, List, [], ◌∷◌, ◌++◌, All, leb→le, length, length-take, length-drop, take, drop, Option,
  none, Bool-cases, arith,
}
use raknet_rust.Common.Int.{max_u64}
use raknet_rust.Protocol.Sequence24.{Sequence24}
use raknet_rust.Protocol.Reliability.{
  Reliability, unreliable, unreliable_sequenced, reliable, reliable_ordered, reliable_sequenced,
  unreliable_with_ack_receipt, reliable_with_ack_receipt, reliable_ordered_with_ack_receipt,
  is_reliable, is_ordered, is_sequenced,
}
use raknet_rust.Protocol.Frame.{Frame, has_order, fields_size, bytes_for, payload_len, encoded_size}
use raknet_rust.Session.Outgoing.{
  RakPriority, Sender, PartContext, frame_overhead, max_payload_for, bit_length_of, part_of,
  channel_for, next_split_id, next_ordering_index_if_needed, next_sequence_index_if_needed,
  enqueue_single_frame, enqueue_split_frames, normalize_reliability_for_split, div_ceil,
}
use raknet_rust.Session.Send.{enqueue, estimate_queue_impact}
use raknet_rust.Session.Outgoing.Parts.{
  frames_of, sum_sizes, Pushed, SameQueue, SameQueue-Pushed, push_indexed, index_for, index_after,
  parts, enqueue_parts-Pushed,
}

bytes_lem : (n : ℕ) → n < 8192 → bytes_for (bit_length_of n) ≡ n
unfolding bytes_for bit_length_of
bytes_lem n h = omega arith

-- A frame takes what the overhead says, and its payload.
pub encoded_size_lem :
    (f : Frame)
    → length f.payload < 8192
    → f.bit_length ≡ bit_length_of (length f.payload)
    → encoded_size f ≡ frame_overhead f.header.reliability f.header.is_split + length f.payload
unfolding encoded_size frame_overhead fields_size has_order payload_len
encoded_size_lem f h e =
    let b : bytes_for f.bit_length ≡ length f.payload =
      ap bytes_for e ∙ bytes_lem (length f.payload) h in
    omega (arith, b)

part_size :
    (c : PartContext) (idx : ℕ) (i : Option Sequence24) (part : List ℕ)
    → length part < 8192
    → encoded_size (part_of c idx i part) ≡ frame_overhead c.reliability true + length part
unfolding part_of
part_size c idx i part h = encoded_size_lem (part_of c idx i part) h refl

-- The parts take the payload and their overhead, if there are enough of them.
pub sum_sizes-parts :
    (left : ℕ) (c : PartContext) (idx : ℕ) (i : Sequence24) (payload : List ℕ)
    → c.max_split_payload < 8192
    → length payload ≤ left * c.max_split_payload
    → sum_sizes (parts left c idx i payload)
      ≡ length payload + left * frame_overhead c.reliability true
unfolding parts
sum_sizes-parts zero c idx i payload k h = omega arith
sum_sizes-parts (suc left) c idx i payload k h =
    let taken = min (length payload) c.max_split_payload in
    let size = length-take taken payload (ground arith) in
    let left_over = length-drop taken payload in
    let one =
      part_size c idx (index_for c.reliability i) (take taken payload) (ground (arith, size)) in
    let rest =
      sum_sizes-parts left c (idx + 1) (index_after c.reliability i) (drop taken payload) k
        (ground (arith, left_over)) in
    ground (arith, size, left_over, one, rest)

pub length-parts :
    (left : ℕ) (c : PartContext) (idx : ℕ) (i : Sequence24) (payload : List ℕ)
    → length (parts left c idx i payload) ≡ left
unfolding parts
length-parts zero c idx i payload = refl
length-parts (suc left) c idx i payload = ap suc (
    length-parts left c (idx + 1) (index_after c.reliability i)
      (drop (min (length payload) c.max_split_payload) payload))

pub normalize-reliable :
    (rel : Reliability) → is_reliable (normalize_reliability_for_split rel) ≡ true
unfolding is_reliable normalize_reliability_for_split
normalize-reliable unreliable = refl
normalize-reliable unreliable_sequenced = refl
normalize-reliable reliable = refl
normalize-reliable reliable_ordered = refl
normalize-reliable reliable_sequenced = refl
normalize-reliable unreliable_with_ack_receipt = refl
normalize-reliable reliable_with_ack_receipt = refl
normalize-reliable reliable_ordered_with_ack_receipt = refl

pub div_ceil_lem : (a k : ℕ) → 1 ≤ k → (a ≤ div_ceil a k * k) × (div_ceil a k * k < a + k)
unfolding div_ceil
div_ceil_lem a k h =
    let whole = div-add-mod (a + (k - 1)) k in
    let below = mod-lt (a + (k - 1)) {m = k} (omega arith) in
    (omega (arith, whole, below), omega (arith, whole, below))

part_limit :
    (s : Sender) (rel : Reliability) → s.mtu < 8192 → max (max_payload_for s rel true) 1 < 8192
unfolding max_payload_for
part_limit s rel h = ground arith

single_limit :
    (s : Sender) (rel : Reliability) (n : ℕ)
    → s.mtu < 8192
    → leb n (max_payload_for s rel false) ≡ true
    → n < 8192
unfolding max_payload_for
single_limit s rel n h l = ground arith

next_ordering-SameQueue :
    (s : Sender) (rel : Reliability) (channel : ℕ)
    → SameQueue s (next_ordering_index_if_needed s rel channel).0
unfolding next_ordering_index_if_needed
next_ordering-SameQueue s rel channel = elim (Bool-cases (is_ordered rel || is_sequenced rel)) [
  | inl t ↦ rw t record { heap = refl; bytes = refl; max_frames = refl; max_bytes = refl }
  | inr f ↦ rw f record { heap = refl; bytes = refl; max_frames = refl; max_bytes = refl }
]

next_sequence-SameQueue :
    (s : Sender) (rel : Reliability) (channel : ℕ)
    → SameQueue s (next_sequence_index_if_needed s rel channel).0
unfolding next_sequence_index_if_needed
next_sequence-SameQueue s rel channel = elim (Bool-cases (is_sequenced rel)) [
  | inl t ↦ rw t record { heap = refl; bytes = refl; max_frames = refl; max_bytes = refl }
  | inr f ↦ rw f record { heap = refl; bytes = refl; max_frames = refl; max_bytes = refl }
]

SameQueue-trans : (s s' s'' : Sender) → SameQueue s s' → SameQueue s' s'' → SameQueue s s''
SameQueue-trans s s' s'' a b = record {
  heap = b.heap ∙ a.heap;
  bytes = b.bytes ∙ a.bytes;
  max_frames = b.max_frames ∙ a.max_frames;
  max_bytes = b.max_bytes ∙ a.max_bytes;
}

-- The indices of the channel are taken before anything is queued.
indexed-SameQueue :
    (s : Sender) (rel : Reliability) (channel : ℕ)
    → let o = (next_ordering_index_if_needed s rel channel).0 in
      SameQueue s (next_sequence_index_if_needed o rel channel).0
indexed-SameQueue s rel channel =
    SameQueue-trans s _ _ (next_ordering-SameQueue s rel channel)
      (next_sequence-SameQueue _ rel channel)

abbrev pub FitsDatagram : ℕ → Frame → Type 0
FitsDatagram mtu f = 4 + encoded_size f ≤ max mtu 28

overhead_le : (rel : Reliability) (is_split : Bool) → frame_overhead rel is_split ≤ 23
unfolding frame_overhead
overhead_le rel is_split = ground arith

room_for :
    (s : Sender) (rel : Reliability) (is_split : Bool) (n : ℕ)
    → n ≤ max (max_payload_for s rel is_split) 1
    → 4 + (frame_overhead rel is_split + n) ≤ max s.mtu 28
unfolding max_payload_for
room_for s rel is_split n h = ground (arith, overhead_le rel is_split)

single_fits :
    (s : Sender) (rel : Reliability) (f : Frame)
    → length f.payload ≤ max_payload_for s rel false
    → length f.payload < 8192
    → f.bit_length ≡ bit_length_of (length f.payload)
    → f.header ≡ record { reliability = rel; is_split = false; needs_bas = false }
    → FitsDatagram s.mtu f
single_fits s rel f h short e q =
    let size = encoded_size_lem f short e in
    let over : frame_overhead f.header.reliability f.header.is_split ≡ frame_overhead rel false =
      ap (λ x. frame_overhead x.reliability x.is_split) q in
    omega (arith, size, over, room_for s rel false (length f.payload) (ground arith))

parts_fit :
    (s : Sender) (left : ℕ) (c : PartContext) (idx : ℕ) (i : Sequence24) (payload : List ℕ)
    → c.max_split_payload < 8192
    → c.max_split_payload ≡ max (max_payload_for s c.reliability true) 1
    → All (FitsDatagram s.mtu) (parts left c idx i payload)
unfolding parts
parts_fit s zero c idx i payload k e = tt
parts_fit s (suc left) c idx i payload k e =
    let taken = min (length payload) c.max_split_payload in
    let part = take taken payload in
    let size = length-take taken payload (ground arith) in
    let room = room_for s c.reliability true (length part) (ground (arith, size, e)) in
    let one = part_size c idx (index_for c.reliability i) part (ground (arith, size)) in
    (
      omega (arith, one, room),
      parts_fit s left c (idx + 1) (index_after c.reliability i) (drop taken payload) k e,
    )

-- What is queued has so many frames and bytes, and each frame fits a datagram of its own. An MTU below
-- 28 leaves no room for one byte.
abbrev pub Adds : Sender → Sender → ℕ → ℕ → Type 0
Adds s s' frames bytes =
    (fs : List Frame) × Pushed s s' fs
    × (length fs ≡ frames)
    × (sum_sizes fs ≡ bytes)
    × All (FitsDatagram s.mtu) fs

enqueue_single_frame-Adds :
    (s : Sender) (payload : List ℕ) (rel : Reliability) (channel : ℕ) (p : RakPriority)
    (receipt : Option ℕ)
    → length payload < 8192
    → length payload ≤ max_payload_for s rel false
    → Adds s
        (enqueue_single_frame s payload rel channel p receipt).0
        1
        (frame_overhead rel false + length payload)
unfolding enqueue_single_frame
enqueue_single_frame-Adds s payload rel channel p receipt short h =
    let (o, ordering_index) = next_ordering_index_if_needed s rel channel in
    let (q, sequence_index) = next_sequence_index_if_needed o rel channel in
    let make : Option Sequence24 → Frame = λ i. record {
      header = record { reliability = rel; is_split = false; needs_bas = false };
      bit_length = bit_length_of (length payload);
      reliable_index = i;
      sequence_index = sequence_index;
      ordering_index = ordering_index;
      ordering_channel = channel_for ordering_index channel;
      split = none;
      payload = payload;
    } in
    let pushed = (push_indexed q rel make p receipt).0 in
    let f = make (index_for rel q.reliable_write_index) in
    (
      f ∷ [],
      SameQueue-Pushed s q _ (f ∷ []) (indexed-SameQueue s rel channel) pushed,
      refl,
      omega (arith, encoded_size_lem f short refl),
      (single_fits s rel f h short refl refl, tt),
    )

split_sender-SameQueue :
    (s : Sender) (rel : Reliability) (channel : ℕ)
    → let o = (next_ordering_index_if_needed (next_split_id s) rel channel).0 in
      SameQueue s (next_sequence_index_if_needed o rel channel).0
split_sender-SameQueue s rel channel =
    SameQueue-trans s (next_split_id s) _
      (unfold next_split_id in
        record { heap = refl; bytes = refl; max_frames = refl; max_bytes = refl })
      (indexed-SameQueue (next_split_id s) rel channel)

-- The parts that are queued, and what they share.
pub enqueue_split_frames-parts :
    (s : Sender) (payload : List ℕ) (rel : Reliability) (channel : ℕ) (p : RakPriority)
    (receipt : Option ℕ)
    → s.outgoing_queued_bytes ≤ max_u64
    → (c : PartContext) × (i : Sequence24) × (1 ≤ c.max_split_payload)
      × (c.part_count ≡ div_ceil (length payload) c.max_split_payload)
      × (c.split_id ≡ s.split_write_index)
      × (frames_of (enqueue_split_frames s payload rel channel p receipt).0.outgoing_heap
          ≡ frames_of s.outgoing_heap ++ parts c.part_count c 0 i payload)
unfolding enqueue_split_frames
enqueue_split_frames-parts s payload rel channel p receipt small =
    let eff = normalize_reliability_for_split rel in
    let k = max (max_payload_for s eff true) 1 in
    let n = div_ceil (length payload) k in
    let (o, ordering_index) = next_ordering_index_if_needed (next_split_id s) eff channel in
    let (q, sequence_index) = next_sequence_index_if_needed o eff channel in
    let c : PartContext = record {
      reliability = eff;
      max_split_payload = k;
      part_count = n;
      split_id = s.split_write_index;
      ordering_index = ordering_index;
      sequence_index = sequence_index;
      channel = channel;
      priority = p;
      receipt_id = receipt;
    } in
    let same = split_sender-SameQueue s eff channel in
    let (pushed, sum) = enqueue_parts-Pushed n c 0 q payload (omega (arith, same.bytes)) in
    (
      c,
      q.reliable_write_index,
      ground arith,
      refl,
      refl,
      pushed.frames ∙ ap (λ h. frames_of h ++ parts n c 0 q.reliable_write_index payload) same.heap,
    )

enqueue_split_frames-Adds :
    (s : Sender) (payload : List ℕ) (rel : Reliability) (channel : ℕ) (p : RakPriority)
    (receipt : Option ℕ)
    → s.outgoing_queued_bytes ≤ max_u64
    → s.mtu < 8192
    → let eff = normalize_reliability_for_split rel in
      let n = div_ceil (length payload) (max (max_payload_for s eff true) 1) in
      Adds s
        (enqueue_split_frames s payload rel channel p receipt).0
        n
        (length payload + n * frame_overhead eff true)
unfolding enqueue_split_frames
enqueue_split_frames-Adds s payload rel channel p receipt small mtu =
    let eff = normalize_reliability_for_split rel in
    let k = max (max_payload_for s eff true) 1 in
    let n = div_ceil (length payload) k in
    let (o, ordering_index) = next_ordering_index_if_needed (next_split_id s) eff channel in
    let (q, sequence_index) = next_sequence_index_if_needed o eff channel in
    let c : PartContext = record {
      reliability = eff;
      max_split_payload = k;
      part_count = n;
      split_id = s.split_write_index;
      ordering_index = ordering_index;
      sequence_index = sequence_index;
      channel = channel;
      priority = p;
      receipt_id = receipt;
    } in
    let same = split_sender-SameQueue s eff channel in
    let (pushed, sum) = enqueue_parts-Pushed n c 0 q payload (omega (arith, same.bytes)) in
    let fs = parts n c 0 q.reliable_write_index payload in
    (
      fs,
      SameQueue-Pushed s q _ fs same pushed,
      length-parts n c 0 q.reliable_write_index payload,
      sum_sizes-parts n c 0 q.reliable_write_index payload (part_limit s eff mtu)
          (div_ceil_lem (length payload) k (ground arith)).0,
      parts_fit s n c 0 q.reliable_write_index payload (part_limit s eff mtu) refl,
    )

-- The estimate that the limits are held against is exact: a payload that is let in puts as many frames
-- and bytes into the queue as was estimated, and every frame fits a datagram of the MTU, if that has
-- 28 bytes. The MTU is below 8192, so that the length of a part in bits fits 16 bits.
pub enqueue-estimate_queue_impact :
    (s : Sender) (payload : List ℕ) (rel : Reliability) (channel : ℕ) (p : RakPriority)
    (receipt : Option ℕ)
    → s.outgoing_queued_bytes ≤ max_u64
    → s.mtu < 8192
    → let (frames, bytes, effective) = estimate_queue_impact s (length payload) rel in
      Adds s (enqueue s payload rel channel p receipt).0 frames bytes
unfolding enqueue estimate_queue_impact
enqueue-estimate_queue_impact s payload rel channel p receipt small mtu =
    elim (Bool-cases (leb (length payload) (max_payload_for s rel false))) [
      | inl t ↦ rw t (
          enqueue_single_frame-Adds s payload rel channel p receipt
            (single_limit s rel (length payload) mtu t) (leb→le _ _ t))
      | inr f ↦ rw f (enqueue_split_frames-Adds s payload rel channel p receipt small mtu)
    ]
