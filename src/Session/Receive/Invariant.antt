-- ===== src/Session/Receive/Invariant.antt =====
-- What every datagram keeps of a session.
use raknet_rust.Common.{
  ℕ, ◌≤◌, ◌≡◌, refl, sym, subst, inl, inr, Bool, true, false, not, ◌&&◌, List, [], ◌∷◌, length, All,
  Option, none, some, Result, ok, err, Bool-cases, arith, if◌then◌else◌,
}
use raknet_rust.Protocol.Errors.{DecodeError}
use raknet_rust.Protocol.Sequence24.{Sequence24, IsSeq, gt}
use raknet_rust.Protocol.Sequence24
use raknet_rust.Protocol.Sequence24.Arith.{next-IsSeq}
use raknet_rust.Protocol.Ack.{SequenceRange, range_of}
use raknet_rust.Protocol.Reliability.{is_reliable, is_ordered, is_sequenced}
use raknet_rust.Protocol.Frame.{Frame, reliability_of}
use raknet_rust.Protocol.Datagram.{Datagram, DatagramPayload, frames, ack, nack}
use raknet_rust.Session.AckQueue.{AckQueue}
use raknet_rust.Session.AckQueue.Bounds.{length-push}
use raknet_rust.Session.ReliableTracker.{ReliableTracker}
use raknet_rust.Session.ReliableTracker.Agree.{length-see}
use raknet_rust.Session.OrderingChannels.History.{AreChannels, HasSeq}
use raknet_rust.Session.OrderingChannels.Kept.{
  handle_ordered-AreChannels, handle_sequenced-AreChannels,
}
use raknet_rust.Session.SplitAssembler.{SplitAssembler}
use raknet_rust.Session.SplitAssembler.Invariant.{IsAssembler}
use raknet_rust.Session.SplitAssembler.Bounded.{add-IsAssembler}
use raknet_rust.Session.SplitAssembler.Indices.{AreSeqs, FrameSeq, add-AddedSeqs}
use raknet_rust.Session.AckFlow.{AckFlow, push_ack, push_nack, process_datagram_sequence}
use raknet_rust.Session.AckFlow.Chunks.{missing, push_all}
use raknet_rust.Session.AckFlow.Gap.{process_datagram_sequence_lem}
use raknet_rust.Session.Receive.{
  Receiver, Received, note_index, route_frame, is_duplicate, tracked_index, after_assembly,
  drop_duplicate, handle_frame, append_out, continue_with, handle_frames, handle_ack_payload,
  handle_nack_payload, count_datagram, count_frames, ingest_frames, ingest_payload, ingest_datagram,
}

abbrev pub IsQueue : AckQueue → Type 0
IsQueue q = length q.queue ≤ q.max_ranges

pub record IsFlow (s : AckFlow) : Type 0 where
  pub read : IsSeq s.datagram_read_index
  pub acks : IsQueue s.outgoing_acks
  pub nacks : IsQueue s.outgoing_nacks

abbrev pub IsTracker : ReliableTracker → Type 0
IsTracker t = length t.seen_ahead ≤ t.max_window

-- Every part of the session is within its bounds.
pub record IsReceiver (r : Receiver) : Type 0 where
  pub flow : IsFlow r.flow
  pub tracker : IsTracker r.reliable_tracker
  pub assembler : IsAssembler r.split_assembler
  pub indices : AreSeqs r.split_assembler
  pub channels : AreChannels r.ordering

-- What the decoder makes.
abbrev pub PayloadSeqs : DatagramPayload → Type 0
PayloadSeqs (frames fs) = All HasSeq fs
PayloadSeqs (ack p) = Unit {0}
PayloadSeqs (nack p) = Unit {0}

push_ack-IsFlow :
    (s : AckFlow) (seq : Sequence24) (now : ℕ) → IsFlow s → IsFlow (push_ack s seq now)
unfolding push_ack
push_ack-IsFlow s seq now v = record {
  read = v.read;
  acks = length-push s.outgoing_acks (range_of seq seq) v.acks;
  nacks = v.nacks;
}

push_nack-IsFlow :
    (s : AckFlow) (range : SequenceRange) (now : ℕ) → IsFlow s → IsFlow (push_nack s range now)
unfolding push_nack
push_nack-IsFlow s range now v = record {
  read = v.read;
  acks = v.acks;
  nacks = length-push s.outgoing_nacks range v.nacks;
}

push_all-IsFlow :
    (s : AckFlow) (rs : List SequenceRange) (now : ℕ) → IsFlow s → IsFlow (push_all s rs now)
push_all-IsFlow s [] now v = v
push_all-IsFlow s (r ∷ rs) now v =
    push_all-IsFlow (push_nack s r now) rs now (push_nack-IsFlow s r now v)

-- The sequence number of a datagram is taken note of, within the bounds.
pub process_datagram_sequence-IsFlow :
    (s : AckFlow) (seq now : ℕ)
    → IsFlow s
    → IsSeq seq
    → (s' : AckFlow) × (process_datagram_sequence s seq now ≡ some s') × IsFlow s'
unfolding process_datagram_sequence
process_datagram_sequence-IsFlow s seq now v h = elim (Bool-cases (gt s.datagram_read_index seq)) [
  | inl t ↦ (push_ack s seq now, rw t refl, push_ack-IsFlow s seq now v)
  | inr f ↦
      let moved = record s { datagram_read_index = Sequence24.next seq } in
      let v' : IsFlow moved = record { read = next-IsSeq seq; acks = v.acks; nacks = v.nacks } in
      let rs = missing s.datagram_read_index seq in
      (
        push_ack (push_all moved rs now) seq now,
        (process_datagram_sequence_lem s seq now 0 v.read h (omega arith) f).0,
        push_ack-IsFlow (push_all moved rs now) seq now (push_all-IsFlow moved rs now v'),
      )
]

note_index-IsTracker :
    (t : ReliableTracker) (i : Option Sequence24) → IsTracker t → IsTracker (note_index t i)
unfolding note_index
note_index-IsTracker t none v = v
note_index-IsTracker t (some i) v = (length-see t i v).0

route_frame-IsReceiver :
    (r : Receiver) (f : Frame) → IsReceiver r → HasSeq f → IsReceiver (route_frame r f).0
unfolding route_frame
route_frame-IsReceiver r f v h = elim (Bool-cases (is_sequenced (reliability_of f))) [
  | inl t ↦ rw t record {
    flow = v.flow;
    tracker = v.tracker;
    assembler = v.assembler;
    indices = v.indices;
    channels = handle_sequenced-AreChannels r.ordering f v.channels;
  }
  | inr n ↦ elim (Bool-cases (is_ordered (reliability_of f))) [
    | inl t ↦
        rw (n, t)
          record {
            flow = v.flow;
            tracker = v.tracker;
            assembler = v.assembler;
            indices = v.indices;
            channels = handle_ordered-AreChannels r.ordering f v.channels h;
          }
    | inr m ↦ rw (n, m) v
  ]
]

after_assembly-IsReceiver :
    (r : Receiver) (f : Frame) (a : SplitAssembler) (x : Result DecodeError (Option Frame))
    → IsReceiver r
    → IsAssembler a
    → AreSeqs a
    → FrameSeq x
    → IsReceiver (after_assembly r f a x).0
unfolding after_assembly
after_assembly-IsReceiver r f a (err e) v w s h = record {
  flow = v.flow;
  tracker = v.tracker;
  assembler = w;
  indices = s;
  channels = v.channels;
}
after_assembly-IsReceiver r f a (ok none) v w s h = record {
  flow = v.flow;
  tracker = v.tracker;
  assembler = w;
  indices = s;
  channels = v.channels;
}
after_assembly-IsReceiver r f a (ok (some whole)) v w s h =
    route_frame-IsReceiver _ whole
      record {
        flow = v.flow;
        tracker = noted (not f.header.is_split && is_reliable (reliability_of whole));
        assembler = w;
        indices = s;
        channels = v.channels;
      }
      h
  where
    noted :
        (b : Bool)
        → IsTracker
            (if b then note_index r.reliable_tracker whole.reliable_index else r.reliable_tracker)
    noted true = note_index-IsTracker r.reliable_tracker whole.reliable_index v.tracker
    noted false = v.tracker

handle_frame-IsReceiver :
    (r : Receiver) (f : Frame) (now : ℕ)
    → IsReceiver r
    → HasSeq f
    → IsReceiver (handle_frame r f now).0
unfolding handle_frame drop_duplicate
handle_frame-IsReceiver r f now v h =
    elim (Bool-cases (is_duplicate r.reliable_tracker (tracked_index f))) [
      | inl t ↦ rw t record {
        flow = v.flow;
        tracker = v.tracker;
        assembler = v.assembler;
        indices = v.indices;
        channels = v.channels;
      }
      | inr n ↦
          let (s, o) = add-AddedSeqs r.split_assembler f now v.indices h in
          rw n (
            after_assembly-IsReceiver r f _ _ v
              (add-IsAssembler r.split_assembler f now v.assembler) s o)
    ]

append_out-state : (out : List Frame) (x : Received) → (append_out out x).0 ≡ x.0
unfolding append_out
append_out-state out (r, ok more) = refl
append_out-state out (r, err e) = refl

continue_with-IsReceiver :
    (x : Received) (next : Receiver → Received)
    → IsReceiver x.0
    → ((r : Receiver) → IsReceiver r → IsReceiver (next r).0)
    → IsReceiver (continue_with x next).0
unfolding continue_with
continue_with-IsReceiver (r, err e) next v k = v
continue_with-IsReceiver (r, ok out) next v k =
    subst IsReceiver (sym (append_out-state out (next r))) (k r v)

-- Frames keep the bounds, also when one of them is refused.
pub handle_frames-IsReceiver :
    (r : Receiver) (fs : List Frame) (now : ℕ)
    → IsReceiver r
    → All HasSeq fs
    → IsReceiver (handle_frames r fs now).0
unfolding handle_frames
handle_frames-IsReceiver r [] now v h = v
handle_frames-IsReceiver r (f ∷ fs) now v h =
    continue_with-IsReceiver (handle_frame r f now) _ (handle_frame-IsReceiver r f now v h.0)
      λ r' v'. handle_frames-IsReceiver r' fs now v' h.1

with_metrics :
    (r r' : Receiver)
    → IsReceiver r
    → IsFlow r'.flow
    → r'.reliable_tracker ≡ r.reliable_tracker
    → r'.split_assembler ≡ r.split_assembler
    → r'.ordering ≡ r.ordering
    → IsReceiver r'
with_metrics r r' v f t a o = record {
  flow = f;
  tracker = subst IsTracker (sym t) v.tracker;
  assembler = subst IsAssembler (sym a) v.assembler;
  indices = subst AreSeqs (sym a) v.indices;
  channels = subst AreChannels (sym o) v.channels;
}

ingest_payload-IsReceiver :
    (r : Receiver) (seq : Sequence24) (p : DatagramPayload) (now : ℕ)
    → IsReceiver r
    → IsSeq seq
    → PayloadSeqs p
    → (x : Received) × (ingest_payload r seq p now ≡ some x) × IsReceiver x.0
unfolding ingest_payload ingest_frames count_frames handle_ack_payload handle_nack_payload
ingest_payload-IsReceiver r seq (ack p) now v h q =
    (_, refl, with_metrics r (handle_ack_payload r p) v v.flow refl refl refl)
ingest_payload-IsReceiver r seq (nack p) now v h q =
    (_, refl, with_metrics r (handle_nack_payload r p) v v.flow refl refl refl)
ingest_payload-IsReceiver r seq (frames fs) now v h q =
    let (flow, e, w) = process_datagram_sequence-IsFlow r.flow seq now v.flow h in
    let taken = record (count_frames r (length fs)) { flow = flow } in
    (
      handle_frames taken fs now,
      rw e refl,
      handle_frames-IsReceiver taken fs now (with_metrics r taken v w refl refl refl) q,
    )

-- A datagram whose sequence number and ordering indices are 24-bit numbers is taken in without a loop
-- that does not end, and it keeps the session within its bounds, whatever it holds and also when it is
-- refused: the queues of acknowledgements within their capacity, the tracker within its window, the
-- assembler and the ordering channels within their limits.
pub ingest_datagram-IsReceiver :
    (r : Receiver) (d : Datagram) (now : ℕ)
    → IsReceiver r
    → IsSeq d.header.sequence
    → PayloadSeqs d.payload
    → (x : Received) × (ingest_datagram r d now ≡ some x) × IsReceiver x.0
unfolding ingest_datagram count_datagram
ingest_datagram-IsReceiver r d now v h p =
    ingest_payload-IsReceiver (count_datagram r) d.header.sequence d.payload now
      (with_metrics r (count_datagram r) v v.flow refl refl refl) h p
