-- ===== src/Session/Run/Sending.antt =====
-- What the sending half of a session keeps: its MTU, and what the queue notes of the frames in it.
use raknet_rust.Common.{
  ℕ, zero, suc, ◌+◌, ◌≡◌, refl, inl, inr, Bool-cases, ◌||◌, leb, List, length, get_or, All,
  All-append, Option, false,
}
use raknet_rust.Protocol.Reliability.{Reliability, is_reliable, is_ordered, is_sequenced}
use raknet_rust.Protocol.Frame.{Frame}
use raknet_rust.Session.Outgoing.{
  RakPriority, as_index, is_idle, Sender, PartContext, max_payload_for, next_reliable_index,
  reliable_index_for, next_ordering_index_if_needed, next_sequence_index_if_needed, next_weight,
  push_outgoing_frame, enqueue_single_frame, enqueue_parts, enqueue_split_frames, next_split_id,
}
use raknet_rust.Session.Send.{
  BackpressureAction, allow, drop_payload, defer, disconnect_peer, SoftLimit, enqueue, act,
  count_drop, count_defer, request_disconnect, queue_payload_with_receipt,
}
use raknet_rust.Session.Dispatch.Whole.{IsQueued}

-- The MTU is still `mtu`, and the sizes and reliabilities in the queue are those of its frames.
abbrev pub Holds : ℕ → Sender → Type 0
Holds mtu s = (s.mtu ≡ mtu) × All IsQueued s.outgoing_heap

next_weight-Holds :
    (mtu : ℕ) (s : Sender) (p : RakPriority) → Holds mtu s → Holds mtu (next_weight s p).0
unfolding next_weight
next_weight-Holds mtu s p v = elim (Bool-cases (is_idle s.outgoing_heap)) [
  | inl t ↦ rw t v
  | inr f ↦
      elim (Bool-cases (leb s.last_min_weight (get_or s.outgoing_next_weights (as_index p) 0))) [
        | inl t ↦ rw (f, t) v
        | inr g ↦ rw (f, g) v
      ]
]

push_outgoing_frame-Holds :
    (mtu : ℕ) (s : Sender) (f : Frame) (p : RakPriority) (receipt : Option ℕ)
    → Holds mtu s
    → Holds mtu (push_outgoing_frame s f p receipt)
unfolding push_outgoing_frame
push_outgoing_frame-Holds mtu s f p receipt v =
    let (same, queued) = next_weight-Holds mtu s p v in
    (same, All-append IsQueued _ _ queued (record { size = refl; reliable = refl }, tt))

reliable_index-Holds :
    (mtu : ℕ) (s : Sender) (rel : Reliability)
    → Holds mtu s
    → Holds mtu (reliable_index_for s rel).0
unfolding reliable_index_for next_reliable_index
reliable_index-Holds mtu s rel v = elim (Bool-cases (is_reliable rel)) [
  | inl t ↦ rw t v
  | inr f ↦ rw f v
]

next_ordering-Holds :
    (mtu : ℕ) (s : Sender) (rel : Reliability) (channel : ℕ)
    → Holds mtu s
    → Holds mtu (next_ordering_index_if_needed s rel channel).0
unfolding next_ordering_index_if_needed
next_ordering-Holds mtu s rel channel v = elim (Bool-cases (is_ordered rel || is_sequenced rel)) [
  | inl t ↦ rw t v
  | inr f ↦ rw f v
]

next_sequence-Holds :
    (mtu : ℕ) (s : Sender) (rel : Reliability) (channel : ℕ)
    → Holds mtu s
    → Holds mtu (next_sequence_index_if_needed s rel channel).0
unfolding next_sequence_index_if_needed
next_sequence-Holds mtu s rel channel v = elim (Bool-cases (is_sequenced rel)) [
  | inl t ↦ rw t v
  | inr f ↦ rw f v
]

enqueue_single_frame-Holds :
    (mtu : ℕ) (s : Sender) (payload : List ℕ) (rel : Reliability) (channel : ℕ) (p : RakPriority)
    (receipt : Option ℕ)
    → Holds mtu s
    → Holds mtu (enqueue_single_frame s payload rel channel p receipt).0
unfolding enqueue_single_frame
enqueue_single_frame-Holds mtu s payload rel channel p receipt v =
    push_outgoing_frame-Holds mtu _ _ p receipt (
      reliable_index-Holds mtu _ rel
        (next_sequence-Holds mtu _ rel channel (next_ordering-Holds mtu s rel channel v)))

enqueue_parts-Holds :
    (mtu left : ℕ) (c : PartContext) (idx : ℕ) (s : Sender) (payload : List ℕ)
    → Holds mtu s
    → Holds mtu (enqueue_parts left c idx s payload).0
unfolding enqueue_parts
enqueue_parts-Holds mtu zero c idx s payload v = v
enqueue_parts-Holds mtu (suc left) c idx s payload v =
    enqueue_parts-Holds mtu left c (idx + 1) _ _ (
      push_outgoing_frame-Holds mtu _ _ c.priority c.receipt_id
        (reliable_index-Holds mtu s c.reliability v))

enqueue_split_frames-Holds :
    (mtu : ℕ) (s : Sender) (payload : List ℕ) (rel : Reliability) (channel : ℕ) (p : RakPriority)
    (receipt : Option ℕ)
    → Holds mtu s
    → Holds mtu (enqueue_split_frames s payload rel channel p receipt).0
unfolding enqueue_split_frames next_split_id
enqueue_split_frames-Holds mtu s payload rel channel p receipt v =
    enqueue_parts-Holds mtu _ _ 0 _ payload
      (next_sequence-Holds mtu _ _ channel (next_ordering-Holds mtu (next_split_id s) _ channel v))

enqueue-Holds :
    (mtu : ℕ) (s : Sender) (payload : List ℕ) (rel : Reliability) (channel : ℕ) (p : RakPriority)
    (receipt : Option ℕ)
    → Holds mtu s
    → Holds mtu (enqueue s payload rel channel p receipt).0
unfolding enqueue
enqueue-Holds mtu s payload rel channel p receipt v =
    elim (Bool-cases (leb (length payload) (max_payload_for s rel false))) [
      | inl t ↦ rw t (enqueue_single_frame-Holds mtu s payload rel channel p receipt v)
      | inr f ↦ rw f (enqueue_split_frames-Holds mtu s payload rel channel p receipt v)
    ]

act-Holds :
    ⦃f : SoftLimit⦄ (mtu : ℕ) (a : BackpressureAction) (s : Sender) (payload : List ℕ)
    (rel : Reliability) (channel : ℕ) (p : RakPriority) (receipt : Option ℕ)
    → Holds mtu s
    → Holds mtu (act a s payload rel channel p receipt).0
unfolding act count_drop count_defer request_disconnect
act-Holds mtu allow s payload rel channel p receipt v =
    enqueue-Holds mtu s payload rel channel p receipt v
act-Holds mtu drop_payload s payload rel channel p receipt v = v
act-Holds mtu defer s payload rel channel p receipt v = v
act-Holds mtu disconnect_peer s payload rel channel p receipt v = v

pub queue_payload_with_receipt-Holds :
    ⦃f : SoftLimit⦄ (mtu : ℕ) (s : Sender) (payload : List ℕ) (rel : Reliability) (channel : ℕ)
    (p : RakPriority) (receipt : Option ℕ)
    → Holds mtu s
    → Holds mtu (queue_payload_with_receipt s payload rel channel p receipt).0
unfolding queue_payload_with_receipt
queue_payload_with_receipt-Holds mtu s payload rel channel p receipt v =
    act-Holds mtu _ s payload rel channel p receipt v
