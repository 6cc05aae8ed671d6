-- ===== src/Session/Send.antt =====
-- src/session/mod.rs: whether a session queues a payload, by its limits. That a refused payload may be
-- overwritten in memory is left out.
pub mod Estimate
pub mod Limits
pub mod Refused
pub mod Reassembly
mod Tests
use raknet_rust.Common.{
  ℕ, ◌+◌, ◌-◌, ◌*◌, ◌≤◌, max, Bool, true, false, not, ◌||◌, ltb, leb, if◌then◌else◌, List, length,
  Option,
}
use raknet_rust.Common.Int.{saturating_add}
use raknet_rust.Protocol.Reliability.{Reliability, is_reliable}
use raknet_rust.Session.Outgoing.{
  BackpressureMode, RakPriority, Sender, delay, disconnect, div_ceil, enqueue_single_frame,
  enqueue_split_frames, frame_overhead, high, immediate, low, max_payload_for, normal,
  normalize_reliability_for_split, shed,
}

pub data BackpressureAction : Type 0 where
  allow drop_payload defer disconnect_peer : BackpressureAction

pub data QueuePayloadResult : Type 0 where
  enqueued : ℕ → QueuePayloadResult
  dropped deferred disconnect_requested : QueuePayloadResult

-- `(n as f64 * outgoing_queue_soft_ratio).floor().max(1.0) as usize`, in the floating-point numbers of
-- the language. The ratio lies between 0.05 and 0.99, so that the product does not exceed `n`.
pub record SoftLimit : Type 0 where
  pub soft : ℕ → ℕ
  pub soft-pos : (n : ℕ) → 1 ≤ soft n
  pub soft-le : (n : ℕ) → 1 ≤ n → soft n ≤ n

-- How many frames and bytes a payload adds to the queue. A list is shorter than 2 ^ 63 bytes, so the
-- sums and products do not saturate.
unfoldable pub estimate_queue_impact : Sender → ℕ → Reliability → ℕ × ℕ × Reliability
estimate_queue_impact s payload_len rel =
    let effective = normalize_reliability_for_split rel in
    let max_split_payload = max (max_payload_for s effective true) 1 in
    let part_count = div_ceil payload_len max_split_payload in
    if leb payload_len (max_payload_for s rel false)
    then (1, frame_overhead rel false + payload_len, rel)
    else (part_count, payload_len + part_count * frame_overhead effective true, effective)

-- In mode `Shed` what is unreliable or of low priority goes.
abbrev pub is_expendable : Bool → RakPriority → Bool
is_expendable rel immediate = not rel
is_expendable rel high = not rel
is_expendable rel normal = true
is_expendable rel low = true

unfoldable pub over_hard : BackpressureMode → Bool → RakPriority → BackpressureAction
over_hard delay rel priority = defer
over_hard shed rel priority = if is_expendable rel priority then drop_payload else defer
over_hard disconnect rel priority = disconnect_peer

unfoldable pub count_drop : Sender → Sender
count_drop s = record s {
  metrics = record s.metrics {
    outgoing_queue_drops = saturating_add s.metrics.outgoing_queue_drops 1;
    backpressure_drops = saturating_add s.metrics.backpressure_drops 1;
  };
}

unfoldable pub count_defer : Sender → Sender
count_defer s = record s {
  metrics = record s.metrics {
    outgoing_queue_defers = saturating_add s.metrics.outgoing_queue_defers 1;
    backpressure_delays = saturating_add s.metrics.backpressure_delays 1;
  };
}

unfoldable pub request_disconnect : Sender → Sender
request_disconnect s = record s {
  disconnect_requested_by_backpressure = true;
  metrics = record s.metrics {
    outgoing_queue_disconnects = saturating_add s.metrics.outgoing_queue_disconnects 1;
    backpressure_disconnects = saturating_add s.metrics.backpressure_disconnects 1;
  };
}

-- What happens to a payload that is let in.
unfoldable pub enqueue : Sender → List ℕ → Reliability → ℕ → RakPriority → Option ℕ → Sender × ℕ
enqueue s payload rel channel priority receipt_id =
    let single = enqueue_single_frame s payload rel channel priority receipt_id in
    let split = enqueue_split_frames s payload rel channel priority receipt_id in
    if leb (length payload) (max_payload_for s rel false) then single else split

module _ ⦃f : SoftLimit⦄ where
  unfoldable pub evaluate_backpressure :
      Sender → ℕ → ℕ → Reliability → RakPriority → BackpressureAction
  evaluate_backpressure s added_frames added_bytes rel priority =
      let projected_frames = saturating_add (length s.outgoing_heap) added_frames in
      let projected_bytes = saturating_add s.outgoing_queued_bytes added_bytes in
      let hard_frames = max s.outgoing_queue_max_frames 1 in
      let hard_bytes = max s.outgoing_queue_max_bytes 1 in
      if ltb hard_frames projected_frames || ltb hard_bytes projected_bytes
      then over_hard s.backpressure_mode (is_reliable rel) priority
      else if ltb (f.soft hard_frames) projected_frames || ltb (f.soft hard_bytes) projected_bytes
      then defer
      else allow

  unfoldable pub act :
      BackpressureAction
      → Sender
      → List ℕ
      → Reliability
      → ℕ
      → RakPriority
      → Option ℕ
      → Sender × QueuePayloadResult
  act allow s payload rel channel priority receipt_id =
      let (s', reliable_bytes) = enqueue s payload rel channel priority receipt_id in
      (s', enqueued reliable_bytes)
  act drop_payload s payload rel channel priority receipt_id = (count_drop s, dropped)
  act defer s payload rel channel priority receipt_id = (count_defer s, deferred)
  act disconnect_peer s payload rel channel priority receipt_id =
      (request_disconnect s, disconnect_requested)

  unfoldable pub queue_payload_with_receipt :
      Sender → List ℕ → Reliability → ℕ → RakPriority → Option ℕ → Sender × QueuePayloadResult
  queue_payload_with_receipt s payload rel channel priority receipt_id =
      let (frames, bytes, effective) = estimate_queue_impact s (length payload) rel in
      act (evaluate_backpressure s frames bytes effective priority) s payload rel channel priority
        receipt_id

unfoldable pub take_backpressure_disconnect : Sender → Sender × Bool
take_backpressure_disconnect s = (
  record s { disconnect_requested_by_backpressure = false },
  s.disconnect_requested_by_backpressure,
)
