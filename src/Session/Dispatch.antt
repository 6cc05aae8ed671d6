-- ===== src/Session/Dispatch.antt =====
-- src/session/mod.rs: how frames of the queue become a datagram. The heap is the list of what it holds,
-- and `BinaryHeap::pop` takes a greatest element, which is a frame of least weight; which one it takes
-- among equals is a parameter.
pub mod Pick
pub mod Build
pub mod Whole
pub mod Reference
mod Tests
use raknet_rust.Common.{
  ℕ, zero, suc, ◌+◌, ◌-◌, ◌≤◌, ◌<◌, ◌≡◌, Bool, true, false, not, ◌&&◌, ◌||◌, ◌==◌, leb,
  if◌then◌else◌, List, [], ◌∷◌, ◌++◌, length, All, Option, none, some,
}
use raknet_rust.Common.Int.{saturating_add}
use raknet_rust.Common.Floats.{Floats}
use raknet_rust.Protocol.Constants.{raknet_datagram_header_size}
use raknet_rust.Protocol.Frame.{Frame}
use raknet_rust.Protocol.Datagram.{Datagram, datagram_of, frames}
use raknet_rust.Session.Outgoing.{QueuedFrame, Sender, is_idle}
use raknet_rust.Session.Congestion.{can_emit_new_reliable_datagram}
use raknet_rust.Session.Sent.{Sent, next_datagram_sequence, track_sent_reliable_datagram, is_empty}

unfoldable pub take_at : List QueuedFrame → ℕ → Option (QueuedFrame × List QueuedFrame)
take_at [] i = none
take_at (q ∷ qs) zero = some (q, qs)
take_at (q ∷ qs) (suc i) = elim (take_at qs i) [ none ↦ none | some (p, ps) ↦ some (p, q ∷ ps) ]

-- The place of the frame that `pop` takes.
pub record MinHeap : Type 0 where
  pub top : List QueuedFrame → ℕ
  pub top-lt : (h : List QueuedFrame) → 0 < length h → top h < length h
  pub top-least :
      (h : List QueuedFrame) (q : QueuedFrame) (rest : List QueuedFrame)
      → take_at h (top h) ≡ some (q, rest)
      → All (λ p. q.weight ≤ p.weight) rest

unfoldable pub fits : ℕ → Bool → ℕ → ℕ → QueuedFrame → Bool
fits mtu allow_reliable datagram_size remaining q =
    leb (saturating_add datagram_size q.encoded_size) mtu
    && leb q.encoded_size remaining
    && (allow_reliable || not q.is_reliable)

-- What a datagram holds while it is put together.
pub record Draft : Type 0 where
  pub frames : List Frame
  pub receipt_ids : List ℕ
  pub datagram_size : ℕ
  pub remaining : ℕ
  pub has_reliable : Bool
  pub has_split : Bool

abbrev pub contains : List ℕ → ℕ → Bool
contains [] id = false
contains (x ∷ xs) id = x == id || contains xs id

abbrev pub add_receipt : List ℕ → Option ℕ → List ℕ
add_receipt ids none = ids
add_receipt ids (some id) = if contains ids id then ids else ids ++ (id ∷ [])

unfoldable pub add_queued : Draft → QueuedFrame → Draft
add_queued g q = record {
  frames = g.frames ++ (q.frame ∷ []);
  receipt_ids = add_receipt g.receipt_ids q.receipt_id;
  datagram_size = g.datagram_size + q.encoded_size;
  remaining = g.remaining - q.encoded_size;
  has_reliable = g.has_reliable || q.is_reliable;
  has_split = g.has_split || q.frame.header.is_split;
}

abbrev pub empty_draft : ℕ → Draft
empty_draft remaining = record {
  frames = [];
  receipt_ids = [];
  datagram_size = raknet_datagram_header_size;
  remaining = remaining;
  has_reliable = false;
  has_split = false;
}

unfoldable pub take_out : Sender → QueuedFrame → List QueuedFrame → Sender
take_out s q rest = record s {
  outgoing_heap = rest;
  outgoing_queued_bytes = s.outgoing_queued_bytes - q.encoded_size;
}

-- VALID | CONTINUOUS_SEND or VALID | HAS_B_AND_AS.
abbrev pub data_flags : Bool → ℕ
data_flags continuous = if continuous then 0x88 else 0x84

abbrev pub no_frames : List Frame → Bool
no_frames [] = true
no_frames (f ∷ fs) = false

pub record Built (F : Type 0) : Type 0 where
  pub sender : Sender
  pub sent : Sent F
  pub remaining : ℕ
  pub datagram : Option Datagram

module _ ⦃h : MinHeap⦄ where
  abbrev pub pop : List QueuedFrame → Option (QueuedFrame × List QueuedFrame)
  pop heap = take_at heap (h.top heap)

  -- The loop, on fuel: the frame that is selected, and the heap behind the loop over the deferred.
  unfoldable pub pop_loop :
      ℕ
      → (QueuedFrame → Bool)
      → List QueuedFrame
      → List QueuedFrame
      → Option (Option QueuedFrame × List QueuedFrame)
  pop_loop zero test heap deferred = none
  pop_loop (suc fuel) test heap deferred = elim (pop heap) [
    | none ↦ some (none, heap ++ deferred)
    | some (q, rest) ↦ elim (test q) [
      | true ↦ some (some q, rest ++ deferred)
      | false ↦ pop_loop fuel test rest (deferred ++ (q ∷ []))
    ]
  ]

  unfoldable pub pop_next_frame_for_datagram :
      Sender → Bool → ℕ → ℕ → Option (Option QueuedFrame × List QueuedFrame)
  pop_next_frame_for_datagram s allow_reliable datagram_size remaining =
      pop_loop (length s.outgoing_heap + 1) (fits s.mtu allow_reliable datagram_size remaining)
        s.outgoing_heap []

  module _ {F : Type 0} ⦃d : Floats F⦄ where
    -- The loop of `build_data_datagram`, on fuel.
    unfoldable pub fill : ℕ → Sent F → Sender → Draft → Option (Sender × Draft)
    fill zero sent s g = none
    fill (suc fuel) sent s g =
        elim (pop_next_frame_for_datagram s
          (g.has_reliable
            || can_emit_new_reliable_datagram sent.congestion (length sent.sent_datagrams))
          g.datagram_size g.remaining) [
            | none ↦ none
            | some (none, heap) ↦ some (record s { outgoing_heap = heap }, g)
            | some (some q, heap) ↦ fill fuel sent (take_out s q heap) (add_queued g q)
          ]

    unfoldable pub track : Sent F → Datagram → Draft → ℕ → Sent F
    track sent datagram g now =
        if g.has_reliable || not (is_empty g.receipt_ids)
        then track_sent_reliable_datagram sent datagram now g.receipt_ids
        else sent

    unfoldable pub finish : Sent F → Sender → Draft → ℕ → Built F
    finish sent s g now =
        let (numbered, sequence) = next_datagram_sequence sent in
        let datagram =
          datagram_of (data_flags (not (is_idle s.outgoing_heap) || g.has_split)) sequence
            (frames g.frames) in
        if no_frames g.frames
        then record { sender = s; sent = sent; remaining = g.remaining; datagram = none }
        else record {
          sender = s;
          sent = track numbered datagram g now;
          remaining = g.remaining;
          datagram = some datagram;
        }

    -- `none` stands for a loop that does not end within the length of the queue.
    unfoldable pub build_data_datagram : Sent F → Sender → ℕ → ℕ → Option (Built F)
    build_data_datagram sent s now remaining =
        if is_idle s.outgoing_heap || remaining == 0
        then some record { sender = s; sent = sent; remaining = remaining; datagram = none }
        else elim (fill (length s.outgoing_heap + 1) sent s (empty_draft remaining)) [
          | none ↦ none
          | some (s, g) ↦ some (finish sent s g now)
        ]
