-- ===== src/Session/Run.antt =====
-- src/session/mod.rs: the life of a session, as the calls that the transport makes of it.
pub mod Receiving
pub mod Sending
pub mod Window
pub mod Safe
mod Tests
use raknet_rust.Common.{ℕ, List, [], ◌∷◌, Option, none, some}
use raknet_rust.Common.Floats.{Floats}
use raknet_rust.Protocol.Reliability.{Reliability}
use raknet_rust.Protocol.Datagram.{Datagram}
use raknet_rust.Session.Receive.{Received, ingest_datagram}
use raknet_rust.Session.Outgoing.{RakPriority}
use raknet_rust.Session.Send.{SoftLimit, queue_payload_with_receipt}
use raknet_rust.Session.Congestion.{Seconds}
use raknet_rust.Session.Dispatch.{MinHeap}
use raknet_rust.Session.Tick.{Session, on_tick, process_incoming_receipts}

-- A datagram comes in, the application sends, the receipts are processed, or a tick comes, each with its
-- arguments in the order of the call.
pub data Call : Type 0 where
  ingest : Datagram → ℕ → Call
  queue : List ℕ → Reliability → ℕ → RakPriority → Option ℕ → Call
  process : ℕ → Call
  tick : ℕ → ℕ → ℕ → ℕ → ℕ → Call

module _ ⦃l : SoftLimit⦄ ⦃h : MinHeap⦄ {F : Type 0} ⦃d : Floats F⦄ ⦃t : Seconds F⦄ where
  abbrev ingested : Session F → Option Received → Option (Session F)
  ingested s none = none
  ingested s (some (r, result)) = some (record s { receiver = r })

  abbrev first_of : {A : Type 0} → Option (Session F × A) → Option (Session F)
  first_of none = none
  first_of (some (s, a)) = some s

  -- The state after a call, without its answer. `none` stands for a loop that does not end.
  unfoldable pub call : Session F → Call → Option (Session F)
  call s (ingest g now) = ingested s (ingest_datagram s.receiver g now)
  call s (queue payload rel channel priority receipt_id) = some record s {
    sender = (queue_payload_with_receipt s.sender payload rel channel priority receipt_id).0;
  }
  call s (process now) = first_of (process_incoming_receipts s now)
  call s (tick now max_new max_new_bytes max_again max_again_bytes) =
      first_of (on_tick s now max_new max_new_bytes max_again max_again_bytes)

  unfoldable pub run : Session F → List Call → Option (Session F)
  run s [] = some s
  run s (c ∷ cs) = elim (call s c) [ none ↦ none | some s' ↦ run s' cs ]
