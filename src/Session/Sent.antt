-- ===== src/Session/Sent.antt =====
-- src/session/mod.rs: the datagrams that wait for an acknowledgement, and the receipts that the
-- application asked for. The record has the fields of `Session` that this part reads and writes, also
-- to send again (Session.Retransmit). The `BTreeMap` of the sent datagrams is a list in the order of `Sequence24`, which is an order
-- as long as the numbers lie within half of the range.
pub mod Receipts
pub mod Progress
pub mod Table
pub mod Processed
mod Tests
use raknet_rust.Common.{
  ℕ, zero, suc, ◌+◌, ◌-◌, ◌^◌, Bool, true, false, not, ◌&&◌, ◌||◌, ◌==◌, ltb, if◌then◌else◌, List,
  [], ◌∷◌, ◌++◌, length, Option, none, some,
}
use raknet_rust.Common.Int.{saturating_add}
use raknet_rust.Common.Map.{lookup, insert, remove}
use raknet_rust.Common.Floats.{Floats}
use raknet_rust.Protocol.Sequence24.{Sequence24, modulo, next, lt}
use raknet_rust.Protocol.Reliability.{is_reliable, is_with_ack_receipt}
use raknet_rust.Protocol.Ack.{SequenceRange}
use raknet_rust.Protocol.Frame.{Frame, reliability_of}
use raknet_rust.Protocol.Datagram.{Datagram, DatagramPayload, frames, ack, nack}
use raknet_rust.Session.Congestion.{
  Congestion, Seconds, on_reliable_ack, observe_rtt_sample, on_nack_loss,
}

pub record TrackedDatagram : Type 0 where
  pub datagram : Datagram
  pub send_time : ℕ
  pub next_send : ℕ
  pub retries : ℕ
  pub nack_resend_pending : Bool
  pub resendable : Bool
  pub receipt_ids : List ℕ

pub record ReceiptProgress : Type 0 where
  pub acked : ℕ
  pub nacked : ℕ
  pub acked_receipt_ids : List ℕ

pub record SentMetrics : Type 0 where
  pub reliable_sent_datagrams : ℕ
  pub resent_datagrams : ℕ
  pub acked_datagrams : ℕ
  pub nacked_datagrams : ℕ

pub record Sent (F : Type 0) : Type 0 where
  pub datagram_write_index : Sequence24
  pub sent_datagrams : List (ℕ × TrackedDatagram)
  pub receipt_tracking : List (ℕ × ℕ)
  pub congestion : Congestion F
  pub metrics : SentMetrics

unfoldable pub next_datagram_sequence : {F : Type 0} → Sent F → Sent F × Sequence24
next_datagram_sequence s =
    (record s { datagram_write_index = next s.datagram_write_index }, s.datagram_write_index)

unfoldable pub insert_sent :
    Sequence24 → TrackedDatagram → List (ℕ × TrackedDatagram) → List (ℕ × TrackedDatagram)
insert_sent k v [] = (k, v) ∷ []
insert_sent k v ((j, w) ∷ m) =
    if j == k
    then (k, v) ∷ m
    else if lt k j
    then (k, v) ∷ (j, w) ∷ m
    else (j, w) ∷ insert_sent k v m

-- A write through `get_mut`.
unfoldable pub update_sent :
    Sequence24 → TrackedDatagram → List (ℕ × TrackedDatagram) → List (ℕ × TrackedDatagram)
update_sent k v [] = []
update_sent k v ((j, w) ∷ m) = if j == k then (k, v) ∷ m else (j, w) ∷ update_sent k v m

abbrev pub any_frame : (Frame → Bool) → List Frame → Bool
any_frame test [] = false
any_frame test (f ∷ fs) = test f || any_frame test fs

abbrev pub any_in : (Frame → Bool) → DatagramPayload → Bool
any_in test (frames fs) = any_frame test fs
any_in test (ack p) = false
any_in test (nack p) = false

abbrev pub has_reliable : DatagramPayload → Bool
has_reliable p = any_in (λ f. is_reliable (reliability_of f)) p

abbrev pub has_ack_receipt : DatagramPayload → Bool
has_ack_receipt p = any_in (λ f. is_with_ack_receipt (reliability_of f)) p

abbrev pub is_empty : List ℕ → Bool
is_empty [] = true
is_empty (x ∷ xs) = false

abbrev pub pending_of : List (ℕ × ℕ) → ℕ → ℕ
pending_of tracking id = elim (lookup id tracking) [ some n ↦ n | none ↦ 0 ]

-- `entry(id).or_insert(0)`, raised by 1.
unfoldable pub count_receipt : List (ℕ × ℕ) → ℕ → List (ℕ × ℕ)
count_receipt tracking id = insert id (saturating_add (pending_of tracking id) 1) tracking

unfoldable pub count_receipts : List (ℕ × ℕ) → List ℕ → List (ℕ × ℕ)
count_receipts tracking [] = tracking
count_receipts tracking (id ∷ ids) = count_receipts (count_receipt tracking id) ids

unfoldable pub count_reliable : SentMetrics → Bool → SentMetrics
count_reliable m reliable =
    if reliable
    then record m { reliable_sent_datagrams = saturating_add m.reliable_sent_datagrams 1 }
    else m

unfoldable pub track_sent_reliable_datagram : {F : Type 0} → Sent F → Datagram → ℕ → List ℕ → Sent F
track_sent_reliable_datagram s datagram now receipt_ids =
    let reliable = has_reliable datagram.payload in
    let tracked : TrackedDatagram = record {
      datagram = datagram;
      send_time = now;
      next_send = now + s.congestion.resend_rto;
      retries = 0;
      nack_resend_pending = false;
      resendable = reliable;
      receipt_ids = receipt_ids;
    } in
    if not reliable && not (has_ack_receipt datagram.payload) && is_empty receipt_ids
    then s
    else record s {
      metrics = count_reliable s.metrics reliable;
      receipt_tracking = count_receipts s.receipt_tracking receipt_ids;
      sent_datagrams = insert_sent datagram.header.sequence tracked s.sent_datagrams;
    }

-- `for_each_sequence`, on fuel: `f` at every number from `seq` to `end`, both included.
unfoldable pub for_each_sequence :
    {S : Type 0} → ℕ → (S → Sequence24 → S) → S → Sequence24 → Sequence24 → Option S
for_each_sequence zero f s seq end = none
for_each_sequence (suc fuel) f s seq end = elim (seq == end) [
  | true ↦ some (f s seq)
  | false ↦ for_each_sequence fuel f (f s seq) (next seq) end
]

unfoldable pub for_each_range :
    {S : Type 0} → (S → Sequence24 → S) → S → List SequenceRange → Option S
for_each_range f s [] = some s
for_each_range f s (r ∷ rs) = elim (for_each_sequence modulo f s r.start r.end) [
  | some s' ↦ for_each_range f s' rs
  | none ↦ none
]

-- One datagram that carries the receipt has arrived: the rest of the tracking, and the receipt if this
-- was the last.
unfoldable pub ack_receipt : List (ℕ × ℕ) → ℕ → List (ℕ × ℕ) × List ℕ
ack_receipt tracking id = elim (lookup id tracking) [
  | none ↦ (tracking, [])
  | some pending ↦
      if ltb 1 pending
      then (insert id (pending - 1) tracking, [])
      else (remove id tracking, id ∷ [])
]

unfoldable pub ack_receipts : List (ℕ × ℕ) → List ℕ → List (ℕ × ℕ) × List ℕ
ack_receipts tracking [] = (tracking, [])
ack_receipts tracking (id ∷ ids) =
    let (tracking, first) = ack_receipt tracking id in
    let (tracking, others) = ack_receipts tracking ids in (tracking, first ++ others)

abbrev pub no_progress : ReceiptProgress
no_progress = record { acked = 0; nacked = 0; acked_receipt_ids = [] }

module _ {F : Type 0} ⦃d : Floats F⦄ ⦃t : Seconds F⦄ where
  unfoldable pub observe_ack : Congestion F → TrackedDatagram → ℕ → Congestion F
  observe_ack c acked now =
      if acked.retries == 0
      then observe_rtt_sample (on_reliable_ack c) (now - acked.send_time)
      else on_reliable_ack c

  unfoldable pub ack_tracked :
      ℕ → Sent F × ReceiptProgress → Sequence24 → Option TrackedDatagram → Sent F × ReceiptProgress
  ack_tracked now (s, p) seq none = (s, p)
  ack_tracked now (s, p) seq (some acked) =
      let (tracking, ids) = ack_receipts s.receipt_tracking acked.receipt_ids in
      (
        record s {
          sent_datagrams = remove seq s.sent_datagrams;
          congestion = observe_ack s.congestion acked now;
          receipt_tracking = tracking;
        },
        record p { acked = p.acked + 1; acked_receipt_ids = p.acked_receipt_ids ++ ids },
      )

  unfoldable pub ack_sequence : ℕ → Sent F × ReceiptProgress → Sequence24 → Sent F × ReceiptProgress
  unfolding ack_tracked
  ack_sequence now (s, p) seq = ack_tracked now (s, p) seq (lookup seq s.sent_datagrams)

  unfoldable pub nack_tracked :
      ℕ → Sent F × ReceiptProgress → Sequence24 → Option TrackedDatagram → Sent F × ReceiptProgress
  nack_tracked now (s, p) seq none = (s, p)
  nack_tracked now (s, p) seq (some entry) =
      if entry.resendable && ltb now entry.next_send
      then (
        record s {
          sent_datagrams =
              update_sent seq (record entry { next_send = now; nack_resend_pending = true })
                s.sent_datagrams;
        },
        record p { nacked = p.nacked + 1 },
      )
      else (s, p)

  unfoldable pub nack_sequence :
      ℕ → Sent F × ReceiptProgress → Sequence24 → Sent F × ReceiptProgress
  unfolding nack_tracked
  nack_sequence now (s, p) seq = nack_tracked now (s, p) seq (lookup seq s.sent_datagrams)

  unfoldable pub count_acked : Sent F → ℕ → Sent F
  count_acked s n = record s {
    metrics = record s.metrics { acked_datagrams = saturating_add s.metrics.acked_datagrams n };
  }

  unfoldable pub count_nacked : Sent F → ℕ → ℕ → Sent F
  count_nacked s n now = record s {
    congestion = if ltb 0 n then on_nack_loss s.congestion now else s.congestion;
    metrics = record s.metrics { nacked_datagrams = saturating_add s.metrics.nacked_datagrams n };
  }

  unfoldable pub process_nacks :
      Sent F × ReceiptProgress → List SequenceRange → ℕ → Option (Sent F × ReceiptProgress)
  process_nacks (s, p) nacks now =
      elim (for_each_range (nack_sequence now) (count_acked s p.acked, p) nacks) [
        | some (s, p) ↦ some (count_nacked s p.nacked now, p)
        | none ↦ none
      ]

  -- The ranges are those of the queues `incoming_acks` and `incoming_nacks`, which it empties. `none`
  -- stands for a loop that does not end within the sequence numbers.
  unfoldable pub process_receipts :
      Sent F → List SequenceRange → List SequenceRange → ℕ → Option (Sent F × ReceiptProgress)
  unfolding process_nacks
  process_receipts s acks nacks now =
      elim (for_each_range (ack_sequence now) (s, no_progress) acks) [
        | some r ↦ process_nacks r nacks now
        | none ↦ none
      ]
