-- ===== src/Session/Run/Receiving.antt =====
-- What the receiving half of a session keeps.
use raknet_rust.Common.{
  ℕ, ◌≡◌, refl, ap, subst, inl, inr, Bool-cases, ◌||◌, ◌==◌, ltb, List, [], ◌∷◌, ◌++◌, length,
  length-append, All, All-append, Option, none, some, Result, ok, err, arith,
}
use raknet_rust.Protocol.Errors.{DecodeError}
use raknet_rust.Protocol.Sequence24.{Sequence24}
use raknet_rust.Protocol.Ack.{SequenceRange}
use raknet_rust.Protocol.Reliability.{is_ordered, is_sequenced}
use raknet_rust.Protocol.Frame.{Frame, reliability_of}
use raknet_rust.Protocol.Datagram.{Datagram, DatagramPayload, frames, ack, nack}
use raknet_rust.Session.AckQueue.{AckQueue, pop_for_mtu}
use raknet_rust.Session.AckQueue.Bounds.{pop_for_mtu_lem}
use raknet_rust.Session.SplitAssembler
use raknet_rust.Session.SplitAssembler.{SplitAssembler}
use raknet_rust.Session.SplitAssembler.Invariant.{prune-IsAssembler, prune_entries-All}
use raknet_rust.Session.AckFlow
use raknet_rust.Session.AckFlow.{
  AckFlow, process_datagram_sequence, send_acks, send_nacks, drain_ack_datagram,
  drain_nack_datagram,
}
use raknet_rust.Session.Receive.{
  Receiver, Received, route_frame, is_duplicate, tracked_index, after_assembly, drop_duplicate,
  handle_frame, append_out, continue_with, handle_frames, handle_ack_payload, handle_nack_payload,
  count_datagram, count_frames, ingest_frames, ingest_payload, ingest_datagram, prune_split_state,
}
use raknet_rust.Session.Receive.Invariant.{IsQueue, IsFlow, IsReceiver}
use raknet_rust.Session.Sent.Progress.{IsRange}
use raknet_rust.Session.Tick.{
  AckNackPriority, nack_first, ack_first, flush_ack_if_due, flush_nack_if_due, flush_control,
}

-- What the other side acknowledged and refused, and what waits for `process_incoming_receipts`.
abbrev pub AreRanges : Receiver → Type 0
AreRanges r = All IsRange r.incoming_acks × All IsRange r.incoming_nacks

-- What the decoder makes.
abbrev pub PayloadRanges : DatagramPayload → Type 0
PayloadRanges (frames fs) = Unit {0}
PayloadRanges (ack p) = All IsRange p.ranges
PayloadRanges (nack p) = All IsRange p.ranges

route_frame-AreRanges : (r : Receiver) (f : Frame) → AreRanges r → AreRanges (route_frame r f).0
unfolding route_frame
route_frame-AreRanges r f v = elim (Bool-cases (is_sequenced (reliability_of f))) [
  | inl t ↦ rw t v
  | inr n ↦ elim (Bool-cases (is_ordered (reliability_of f))) [
    | inl t ↦ rw (n, t) v
    | inr m ↦ rw (n, m) v
  ]
]

after_assembly-AreRanges :
    (r : Receiver) (f : Frame) (a : SplitAssembler) (x : Result DecodeError (Option Frame))
    → AreRanges r
    → AreRanges (after_assembly r f a x).0
unfolding after_assembly
after_assembly-AreRanges r f a (err e) v = v
after_assembly-AreRanges r f a (ok none) v = v
after_assembly-AreRanges r f a (ok (some whole)) v = route_frame-AreRanges _ whole v

handle_frame-AreRanges :
    (r : Receiver) (f : Frame) (now : ℕ) → AreRanges r → AreRanges (handle_frame r f now).0
unfolding handle_frame drop_duplicate
handle_frame-AreRanges r f now v =
    elim (Bool-cases (is_duplicate r.reliable_tracker (tracked_index f))) [
      | inl t ↦ rw t v
      | inr n ↦ rw n (after_assembly-AreRanges r f _ _ v)
    ]

continue_with-AreRanges :
    (x : Received) (next : Receiver → Received)
    → AreRanges x.0
    → ((r : Receiver) → AreRanges r → AreRanges (next r).0)
    → AreRanges (continue_with x next).0
unfolding continue_with append_out
continue_with-AreRanges (r, err e) next v k = v
continue_with-AreRanges (r, ok out) next v k = appended (next r) (k r v)
  where
    appended : (x : Received) → AreRanges x.0 → AreRanges (append_out out x).0
    appended (r', ok more) w = w
    appended (r', err e) w = w

handle_frames-AreRanges :
    (r : Receiver) (fs : List Frame) (now : ℕ) → AreRanges r → AreRanges (handle_frames r fs now).0
unfolding handle_frames
handle_frames-AreRanges r [] now v = v
handle_frames-AreRanges r (f ∷ fs) now v =
    continue_with-AreRanges (handle_frame r f now) _ (handle_frame-AreRanges r f now v)
      λ r' w. handle_frames-AreRanges r' fs now w

ingest_frames-AreRanges :
    (r : Receiver) (flow : Option AckFlow) (fs : List Frame) (now : ℕ) (x : Received)
    → AreRanges r
    → ingest_frames r flow fs now ≡ some x
    → AreRanges x.0
unfolding ingest_frames
ingest_frames-AreRanges r none fs now x v e = cc
ingest_frames-AreRanges r (some flow) fs now x v e =
    let same : handle_frames (record r { flow = flow }) fs now ≡ x = cc in
    subst (λ y. AreRanges y.0) same (handle_frames-AreRanges (record r { flow = flow }) fs now v)

ingest_payload-AreRanges :
    (r : Receiver) (seq : Sequence24) (p : DatagramPayload) (now : ℕ) (x : Received)
    → AreRanges r
    → PayloadRanges p
    → ingest_payload r seq p now ≡ some x
    → AreRanges x.0
unfolding ingest_payload count_frames handle_ack_payload handle_nack_payload
ingest_payload-AreRanges r seq (frames fs) now x v h e =
    ingest_frames-AreRanges (count_frames r (length fs)) _ fs now x v e
ingest_payload-AreRanges r seq (ack p) now x v h e =
    let same : (handle_ack_payload r p, ok []) ≡ x = cc in
    subst (λ y. AreRanges y.0) same (All-append IsRange r.incoming_acks p.ranges v.0 h, v.1)
ingest_payload-AreRanges r seq (nack p) now x v h e =
    let same : (handle_nack_payload r p, ok []) ≡ x = cc in
    subst (λ y. AreRanges y.0) same (v.0, All-append IsRange r.incoming_nacks p.ranges v.1 h)

pub ingest_datagram-AreRanges :
    (r : Receiver) (d : Datagram) (now : ℕ) (x : Received)
    → AreRanges r
    → PayloadRanges d.payload
    → ingest_datagram r d now ≡ some x
    → AreRanges x.0
unfolding ingest_datagram count_datagram
ingest_datagram-AreRanges r d now x v h e =
    ingest_payload-AreRanges (count_datagram r) d.header.sequence d.payload now x v h e

pop_for_mtu_limit :
    (q : AckQueue) (mtu base_overhead limit : ℕ)
    → (pop_for_mtu q mtu base_overhead limit).0.max_ranges ≡ q.max_ranges
unfolding pop_for_mtu
pop_for_mtu_limit q mtu base_overhead limit = elim (Bool-cases (limit == 0)) [
  | inl t ↦ rw t refl
  | inr f ↦ rw f refl
]

pop_for_mtu-IsQueue :
    (q : AckQueue) (mtu base_overhead limit : ℕ)
    → IsQueue q
    → IsQueue (pop_for_mtu q mtu base_overhead limit).0
pop_for_mtu-IsQueue q mtu base_overhead limit v =
    let all = (pop_for_mtu_lem q mtu base_overhead limit).0 in
    let rest = (pop_for_mtu q mtu base_overhead limit).0.queue in
    let out = (pop_for_mtu q mtu base_overhead limit).1 in
    let count : length (out ++ rest) ≡ length q.queue = ap (λ rs. length rs) all in
    omega (arith, count, length-append out rest, pop_for_mtu_limit q mtu base_overhead limit)

send_acks-IsFlow :
    (s : AckFlow) (now : ℕ) (q : AckQueue) (rs : List SequenceRange)
    → IsFlow s
    → IsQueue q
    → IsFlow (send_acks s now q rs).0
unfolding send_acks
send_acks-IsFlow s now q [] v w = record { read = v.read; acks = w; nacks = v.nacks }
send_acks-IsFlow s now q (r ∷ rs) v w = record { read = v.read; acks = w; nacks = v.nacks }

send_nacks-IsFlow :
    (s : AckFlow) (now : ℕ) (q : AckQueue) (rs : List SequenceRange)
    → IsFlow s
    → IsQueue q
    → IsFlow (send_nacks s now q rs).0
unfolding send_nacks
send_nacks-IsFlow s now q [] v w = record { read = v.read; acks = v.acks; nacks = w }
send_nacks-IsFlow s now q (r ∷ rs) v w = record { read = v.read; acks = v.acks; nacks = w }

flush_ack-IsFlow : (s : AckFlow) (now : ℕ) → IsFlow s → IsFlow (flush_ack_if_due s now).0
unfolding flush_ack_if_due drain_ack_datagram
flush_ack-IsFlow s now v =
    elim (Bool-cases (AckFlow.is_empty s.outgoing_acks || ltb now s.next_ack_flush_at)) [
      | inl t ↦ rw t v
      | inr n ↦ rw n (send_acks-IsFlow s now _ _ v (pop_for_mtu-IsQueue _ _ _ _ v.acks))
    ]

flush_nack-IsFlow : (s : AckFlow) (now : ℕ) → IsFlow s → IsFlow (flush_nack_if_due s now).0
unfolding flush_nack_if_due drain_nack_datagram
flush_nack-IsFlow s now v =
    elim (Bool-cases (AckFlow.is_empty s.outgoing_nacks || ltb now s.next_nack_flush_at)) [
      | inl t ↦ rw t v
      | inr n ↦ rw n (send_nacks-IsFlow s now _ _ v (pop_for_mtu-IsQueue _ _ _ _ v.nacks))
    ]

flush_control-IsFlow :
    (p : AckNackPriority) (s : AckFlow) (now : ℕ) → IsFlow s → IsFlow (flush_control p s now).0
unfolding flush_control
flush_control-IsFlow nack_first s now v =
    flush_ack-IsFlow (flush_nack_if_due s now).0 now (flush_nack-IsFlow s now v)
flush_control-IsFlow ack_first s now v =
    flush_nack-IsFlow (flush_ack_if_due s now).0 now (flush_ack-IsFlow s now v)

-- A tick flushes the acknowledgements and gives up old compounds, within the bounds.
pub tick-IsReceiver :
    (p : AckNackPriority) (r : Receiver) (now : ℕ)
    → IsReceiver r
    → AreRanges r
    → let r' = (prune_split_state (record r { flow = (flush_control p r.flow now).0 }) now).0 in
      IsReceiver r' × AreRanges r'
unfolding prune_split_state SplitAssembler.prune
tick-IsReceiver p r now v w = (
  record {
    flow = flush_control-IsFlow p r.flow now v.flow;
    tracker = v.tracker;
    assembler = prune-IsAssembler r.split_assembler now v.assembler;
    indices = prune_entries-All _ now r.split_assembler.ttl r.split_assembler.entries v.indices;
    channels = v.channels;
  },
  w,
)
