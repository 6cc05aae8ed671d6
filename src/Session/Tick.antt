-- ===== src/Session/Tick.antt =====
-- src/session/mod.rs: a session as a whole, and what it sends at a tick. The state is that of its parts:
-- what it received, what it queues, and what it sent. The MTU stands in two of them.
pub mod Bounds
mod Tests
use raknet_rust.Common.{
  ℕ, zero, suc, ◌+◌, ◌-◌, min, max, Bool, true, false, not, ◌&&◌, ◌||◌, ◌==◌, ltb, leb,
  if◌then◌else◌, List, [], ◌∷◌, ◌++◌, length, Option, none, some,
}
use raknet_rust.Common.Int.{max_u64, saturating_add}
use raknet_rust.Common.Floats.{Floats}
use raknet_rust.Protocol.Datagram.{Datagram}
use raknet_rust.Session.State.{SessionState, is_connected}
use raknet_rust.Session.AckFlow
use raknet_rust.Session.AckFlow.{AckFlow, drain_ack_datagram, drain_nack_datagram}
use raknet_rust.Session.Receive.{Receiver, prune_split_state}
use raknet_rust.Session.Outgoing.{RakPriority, immediate, high, normal, low, QueuedFrame, Sender}
use raknet_rust.Session.Congestion.{
  Congestion, Seconds, refresh_pacing_budget, consume_pacing_budget,
}
use raknet_rust.Session.Sent.{ReceiptProgress, Sent, process_receipts}
use raknet_rust.Session.Retransmit.{collect_resendable, sum_datagrams}
use raknet_rust.Session.Dispatch.{MinHeap, Built, build_data_datagram}

pub data AckNackPriority : Type 0 where
  nack_first ack_first : AckNackPriority

pub record Session (F : Type 0) : Type 0 where
  pub state : SessionState
  pub last_activity : ℕ
  pub last_keepalive_sent : ℕ
  pub ack_nack_priority : AckNackPriority
  pub receiver : Receiver
  pub sender : Sender
  pub sent : Sent F

unfoldable pub touch_activity : {F : Type 0} → Session F → ℕ → Session F
touch_activity s now = record s { last_activity = now }

unfoldable pub idle_for : {F : Type 0} → Session F → ℕ → ℕ
idle_for s now = now - s.last_activity

unfoldable pub should_send_keepalive : {F : Type 0} → Session F → ℕ → ℕ → Bool
should_send_keepalive s now interval =
    if not (is_connected s.state) || interval == 0
    then false
    else leb interval (idle_for s now) && leb interval (now - s.last_keepalive_sent)

unfoldable pub mark_keepalive_sent : {F : Type 0} → Session F → ℕ → Session F
mark_keepalive_sent s now = record s { last_keepalive_sent = now }

unfoldable pub set_mtu : {F : Type 0} → Session F → ℕ → Session F
set_mtu s mtu = record s {
  receiver = record s.receiver { flow = record s.receiver.flow { mtu = mtu } };
  sender = record s.sender { mtu = mtu };
}

-- What `if let Some(datagram)` pushes.
abbrev pub datagrams_of : Option Datagram → List Datagram
datagrams_of none = []
datagrams_of (some g) = g ∷ []

unfoldable pub flush_ack_if_due : AckFlow → ℕ → AckFlow × List Datagram
flush_ack_if_due f now =
    let (f', g) = drain_ack_datagram f now in
    if AckFlow.is_empty f.outgoing_acks || ltb now f.next_ack_flush_at
    then (f, [])
    else (f', datagrams_of g)

unfoldable pub flush_nack_if_due : AckFlow → ℕ → AckFlow × List Datagram
flush_nack_if_due f now =
    let (f', g) = drain_nack_datagram f now in
    if AckFlow.is_empty f.outgoing_nacks || ltb now f.next_nack_flush_at
    then (f, [])
    else (f', datagrams_of g)

unfoldable pub flush_control : AckNackPriority → AckFlow → ℕ → AckFlow × List Datagram
flush_control nack_first f now =
    let (f, nacks) = flush_nack_if_due f now in
    let (f, acks) = flush_ack_if_due f now in (f, nacks ++ acks)
flush_control ack_first f now =
    let (f, acks) = flush_ack_if_due f now in
    let (f, nacks) = flush_nack_if_due f now in (f, acks ++ nacks)

abbrev pub is_immediate : RakPriority → Bool
is_immediate immediate = true
is_immediate high = false
is_immediate normal = false
is_immediate low = false

abbrev pub has_immediate_outgoing_frame : List QueuedFrame → Bool
has_immediate_outgoing_frame [] = false
has_immediate_outgoing_frame (q ∷ qs) = is_immediate q.priority || has_immediate_outgoing_frame qs

abbrev pub min_queued_frame_size : List QueuedFrame → Option ℕ
min_queued_frame_size [] = none
min_queued_frame_size (q ∷ qs) = elim (min_queued_frame_size qs) [
  | none ↦ some q.encoded_size
  | some least ↦ some (min q.encoded_size least)
]

abbrev pub is_too_small : ℕ → Option ℕ → Bool
is_too_small remaining none = false
is_too_small remaining (some min_frame) = ltb remaining min_frame

-- What the loop over new datagrams leaves: its state, the bytes used, and the datagrams.
pub record Sending (F : Type 0) : Type 0 where
  pub sender : Sender
  pub sent : Sent F
  pub datagrams : List Datagram

module _ ⦃h : MinHeap⦄ {F : Type 0} ⦃d : Floats F⦄ where
  -- The datagram that was built goes out, and the loop goes on unless the budget is used up.
  unfoldable pub send_built :
      Built F → (Sent F → Sender → ℕ → Option (Sending F)) → Option Datagram → Option (Sending F)
  send_built b again none = some record { sender = b.sender; sent = b.sent; datagrams = [] }
  send_built b again (some g) = elim (b.remaining == 0) [
    | true ↦ some record { sender = b.sender; sent = b.sent; datagrams = g ∷ [] }
    | false ↦ elim (again b.sent b.sender b.remaining) [
      | none ↦ none
      | some r ↦ some (record r { datagrams = g ∷ r.datagrams })
    ]
  ]

  -- `while new_datagram_count < max_new_datagrams`, with so many rounds left.
  unfoldable pub send_new : ℕ → Sent F → Sender → ℕ → ℕ → Option (Sending F)
  send_new zero sent s now remaining = some record { sender = s; sent = sent; datagrams = [] }
  send_new (suc left) sent s now remaining = elim (build_data_datagram sent s now remaining) [
    | none ↦ none
    | some b ↦ send_built b (λ sent s remaining. send_new left sent s now remaining) b.datagram
  ]

  abbrev pub pacing_limit : Congestion F → ℕ
  pacing_limit c = if c.pacing_enabled then d.floor_usize c.pacing_budget_bytes else max_u64

  -- A frame of the highest priority may go out beyond the pacing.
  unfoldable pub new_bytes_budget : Congestion F → Sender → ℕ → ℕ
  new_bytes_budget c s max_new_bytes =
      let remaining = min max_new_bytes (pacing_limit c) in
      if c.pacing_enabled
        && (remaining == 0 || is_too_small remaining (min_queued_frame_size s.outgoing_heap))
        && ltb 0 max_new_bytes
        && has_immediate_outgoing_frame s.outgoing_heap
      then max (min s.mtu max_new_bytes) 1
      else remaining

  unfoldable pub with_congestion : Sent F → Congestion F → Sent F
  with_congestion sent c = record sent { congestion = c }

  module _ ⦃t : Seconds F⦄ where
    unfoldable pub on_tick : Session F → ℕ → ℕ → ℕ → ℕ → ℕ → Option (Session F × List Datagram)
    on_tick s now max_new_datagrams max_new_bytes max_resend_datagrams max_resend_bytes =
        let paced =
          with_congestion s.sent (refresh_pacing_budget s.sent.congestion s.sender.mtu now) in
        let (flow, control) = flush_control s.ack_nack_priority s.receiver.flow now in
        let (resent, resends) =
          collect_resendable paced now max_resend_datagrams
            (min max_resend_bytes (pacing_limit paced.congestion)) in
        let charged =
          with_congestion resent
            (consume_pacing_budget resent.congestion (sum_datagrams resends)) in
        let budget = new_bytes_budget charged.congestion s.sender max_new_bytes in
        elim (send_new max_new_datagrams charged s.sender now budget) [
          | none ↦ none
          | some r ↦ some (
            record s {
              receiver = (prune_split_state (record s.receiver { flow = flow }) now).0;
              sender = r.sender;
              sent =
                  with_congestion r.sent
                    (consume_pacing_budget r.sent.congestion (sum_datagrams r.datagrams));
            },
            control ++ (resends ++ r.datagrams),
          )
        ]

    -- The queues of what the other side acknowledged and refused are emptied.
    unfoldable pub process_incoming_receipts : Session F → ℕ → Option (Session F × ReceiptProgress)
    process_incoming_receipts s now =
        elim (process_receipts s.sent s.receiver.incoming_acks s.receiver.incoming_nacks now) [
          | none ↦ none
          | some (sent, p) ↦ some (
            record s {
              sent = sent;
              receiver = record s.receiver { incoming_acks = []; incoming_nacks = [] };
            },
            p,
          )
        ]
