-- ===== src/Session/Send/Limits.antt =====
-- The limits of the queue, and what happens to a payload beyond them.
use raknet_rust.Common.{
  ℕ, ◌+◌, ◌≤◌, ◌<◌, ◌≡◌, ◌↔◌, ◌⊎◌, refl, inl, inr, max, Bool, true, false, ◌||◌, ltb, List, length,
  Option, Bool-cases, arith,
}
use raknet_rust.Common.Int.{max_u64, saturating_add}
use raknet_rust.Protocol.Reliability.{Reliability, is_reliable}
use raknet_rust.Session.Outgoing.{RakPriority, BackpressureMode, delay, shed, disconnect, Sender}
use raknet_rust.Session.Send.{
  BackpressureAction, allow, drop_payload, defer, disconnect_peer, SoftLimit, enqueue,
  estimate_queue_impact, is_expendable, over_hard, count_drop, count_defer, request_disconnect,
  evaluate_backpressure, act, queue_payload_with_receipt,
}
use raknet_rust.Session.Outgoing.Parts.{queued_sizes}
use raknet_rust.Session.Send.Estimate.{Adds, enqueue-estimate_queue_impact}

-- The queue keeps its limits and its count of bytes. The limits are those that `with_tunables` sets.
pub record IsSender (s : Sender) : Type 0 where
  pub some_frames : 1 ≤ s.outgoing_queue_max_frames
  pub some_bytes : 1 ≤ s.outgoing_queue_max_bytes
  pub frame_limit : s.outgoing_queue_max_frames < max_u64
  pub byte_limit : s.outgoing_queue_max_bytes < max_u64
  pub frames : length s.outgoing_heap ≤ s.outgoing_queue_max_frames
  pub bytes : s.outgoing_queued_bytes ≤ s.outgoing_queue_max_bytes
  pub accounted : s.outgoing_queued_bytes ≡ queued_sizes s.outgoing_heap

-- A payload of so many frames and bytes does not fit.
abbrev pub OverHard : Sender → ℕ → ℕ → Type 0
OverHard s frames bytes =
    (s.outgoing_queue_max_frames < length s.outgoing_heap + frames)
    ⊎ (s.outgoing_queue_max_bytes < s.outgoing_queued_bytes + bytes)

unfoldable pub exceeds : Sender → ℕ → ℕ → Bool
exceeds s frames bytes =
    ltb (max s.outgoing_queue_max_frames 1) (saturating_add (length s.outgoing_heap) frames)
    || ltb (max s.outgoing_queue_max_bytes 1) (saturating_add s.outgoing_queued_bytes bytes)

pub exceeds_iff :
    (s : Sender) (frames bytes : ℕ)
    → IsSender s
    → ((exceeds s frames bytes ≡ true) ↔ OverHard s frames bytes)
      × (exceeds s frames bytes ≡ false
          → (length s.outgoing_heap + frames ≤ s.outgoing_queue_max_frames)
            × (s.outgoing_queued_bytes + bytes ≤ s.outgoing_queue_max_bytes))
unfolding exceeds
exceeds_iff s frames bytes v =
    let a = v.some_frames in
    let b = v.some_bytes in
    let c = v.frame_limit in
    let d = v.byte_limit in ((λ e. ground arith, λ o. ground arith), λ e. ground arith)

Adds-IsSender :
    (s s' : Sender) (frames bytes : ℕ)
    → IsSender s
    → length s.outgoing_heap + frames ≤ s.outgoing_queue_max_frames
    → s.outgoing_queued_bytes + bytes ≤ s.outgoing_queue_max_bytes
    → Adds s s' frames bytes
    → IsSender s'
Adds-IsSender s s' frames bytes v hf hb (fs, p, n, m, fit) =
    let a = v.some_frames in
    let b = v.some_bytes in
    let c = v.frame_limit in
    let d = v.byte_limit in
    record {
      some_frames = omega (arith, a, p.max_frames);
      some_bytes = omega (arith, b, p.max_bytes);
      frame_limit = omega (arith, c, p.max_frames);
      byte_limit = omega (arith, d, p.max_bytes);
      frames = omega (arith, p.max_frames, p.count, n);
      bytes = ground (arith, p.max_bytes, p.bytes, m);
      accounted = ground (arith, p.bytes, p.sizes, v.accounted, m);
    }

act-IsSender :
    ⦃f : SoftLimit⦄ (a : BackpressureAction) (s : Sender) (payload : List ℕ) (rel : Reliability)
    (channel : ℕ) (p : RakPriority) (receipt : Option ℕ)
    → IsSender s
    → (a ≡ allow → IsSender (enqueue s payload rel channel p receipt).0)
    → IsSender (act a s payload rel channel p receipt).0
unfolding act count_drop count_defer request_disconnect
act-IsSender allow s payload rel channel p receipt v h = h refl
act-IsSender drop_payload s payload rel channel p receipt v h = record {
  some_frames = v.some_frames;
  some_bytes = v.some_bytes;
  frame_limit = v.frame_limit;
  byte_limit = v.byte_limit;
  frames = v.frames;
  bytes = v.bytes;
  accounted = v.accounted;
}
act-IsSender defer s payload rel channel p receipt v h = record {
  some_frames = v.some_frames;
  some_bytes = v.some_bytes;
  frame_limit = v.frame_limit;
  byte_limit = v.byte_limit;
  frames = v.frames;
  bytes = v.bytes;
  accounted = v.accounted;
}
act-IsSender disconnect_peer s payload rel channel p receipt v h = record {
  some_frames = v.some_frames;
  some_bytes = v.some_bytes;
  frame_limit = v.frame_limit;
  byte_limit = v.byte_limit;
  frames = v.frames;
  bytes = v.bytes;
  accounted = v.accounted;
}

over_hard-ne-allow :
    (m : BackpressureMode) (rel : Bool) (p : RakPriority) → over_hard m rel p ≡ allow → ⊥
unfolding over_hard
over_hard-ne-allow delay rel p e = cc
over_hard-ne-allow disconnect rel p e = cc
over_hard-ne-allow shed rel p e = elim (Bool-cases (is_expendable rel p)) [
  | inl t ↦ cc
  | inr f ↦ cc
]

allow_lem :
    ⦃f : SoftLimit⦄ (s : Sender) (frames bytes : ℕ) (rel : Reliability) (p : RakPriority)
    → evaluate_backpressure s frames bytes rel p ≡ allow
    → exceeds s frames bytes ≡ false
unfolding evaluate_backpressure exceeds
allow_lem s frames bytes rel p e = elim (Bool-cases (exceeds s frames bytes)) [
  | inr f ↦ f
  | inl t ↦ absurd (over_hard-ne-allow s.backpressure_mode (is_reliable rel) p (rw (t) at e))
]

-- Whatever is queued, the queue keeps its limits of frames and bytes and its count of the bytes in it.
-- The MTU is below 8192.
pub queue_payload_with_receipt-IsSender :
    ⦃f : SoftLimit⦄ (s : Sender) (payload : List ℕ) (rel : Reliability) (channel : ℕ)
    (p : RakPriority) (receipt : Option ℕ)
    → IsSender s
    → s.mtu < 8192
    → IsSender (queue_payload_with_receipt s payload rel channel p receipt).0
unfolding queue_payload_with_receipt
queue_payload_with_receipt-IsSender s payload rel channel p receipt v mtu =
    let (frames, bytes, effective) = estimate_queue_impact s (length payload) rel in
    let limit = v.byte_limit in
    let held = v.bytes in
    act-IsSender (evaluate_backpressure s frames bytes effective p) s payload rel channel p receipt
      v
      λ e.
        let (hf, hb) = (exceeds_iff s frames bytes v).1 (allow_lem s frames bytes effective p e) in
        Adds-IsSender s _ frames bytes v hf hb
          (enqueue-estimate_queue_impact s payload rel channel p receipt (omega arith) mtu)
