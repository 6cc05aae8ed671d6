-- ===== src/Session/Sent/Processed.antt =====
-- What a session makes of the acknowledgements and refusals that came.
use raknet_rust.Common.{ℕ, ◌≤◌, ◌≡◌, if◌then◌else◌, List, none}
use raknet_rust.Common.Floats.{Floats}
use raknet_rust.Protocol.Sequence24.{IsSeq}
use raknet_rust.Protocol.Ack.{SequenceRange}
use raknet_rust.Session.Sent.{ReceiptProgress, Sent}
use raknet_rust.Session.Sent.Receipts.{times, falls}
use raknet_rust.Session.Sent.Progress.{in_flight, IsSent}
use raknet_rust.Session.Sent.Table.{sent_at, lies_in}

-- What processing the acknowledged ranges `acks` makes of `s`.
pub record IsProcessed {F : Type 0} (s : Sent F) (acks : List SequenceRange)
    (r : Sent F × ReceiptProgress) : Type 0 where
  pub valid : IsSent r.0
  pub fewer : (id : ℕ) → in_flight id r.0.sent_datagrams ≤ in_flight id s.sent_datagrams
  pub reported :
      (id : ℕ)
      → times id r.1.acked_receipt_ids
        ≡ falls (in_flight id s.sent_datagrams) (in_flight id r.0.sent_datagrams)
  pub left :
      (k : ℕ)
      → IsSeq k
      → sent_at k r.0.sent_datagrams ≡ (if lies_in acks k then none else sent_at k s.sent_datagrams)
