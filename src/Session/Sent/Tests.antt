-- ===== src/Session/Sent/Tests.antt =====
-- The theorems on sent datagrams at concrete datagrams, which carry receipts.
use raknet_rust.Common.{ℕ, ◌≤◌, refl, true, false, [], ◌∷◌, length, All}
use raknet_rust.Common.Map.{lookup}
use raknet_rust.Common.Floats.{thousandths}
use raknet_rust.Protocol.Datagram.{Datagram, datagram_of, frames}
use raknet_rust.Protocol.Frame.Samples.{ordered_frame}
use raknet_rust.Session.Congestion.{nanoseconds}
use raknet_rust.Session.Congestion.Samples.{fresh}
use raknet_rust.Session.Sent.{TrackedDatagram, Sent}
use raknet_rust.Session.Retransmit.{collect_resendable, sum_datagrams}
use raknet_rust.Session.Retransmit.Limits.{IsDue, SameDatagrams, collect_resendable_lem}

abbrev datagram : ℕ → Datagram
datagram n = datagram_of 0x84 n (frames (ordered_frame n 0 (1 ∷ []) ∷ []))

abbrev tracked : ℕ → TrackedDatagram
tracked n = record {
  datagram = datagram n;
  send_time = 0;
  next_send = 250_000_000;
  retries = 0;
  nack_resend_pending = false;
  resendable = true;
  receipt_ids = 5 ∷ [];
}

-- Two datagrams carry receipt 5.
abbrev sent : Sent ℕ
sent = record {
  datagram_write_index = 2;
  sent_datagrams = (0, tracked 0) ∷ (1, tracked 1) ∷ [];
  receipt_tracking = (5, 2) ∷ [];
  congestion = fresh;
  metrics = record {
    reliable_sent_datagrams = 2;
    resent_datagrams = 0;
    acked_datagrams = 0;
    nacked_datagrams = 0;
  };
}

collect_resendable_one :
    let (s', out) = collect_resendable sent 300_000_000 1 5000 in
    (length out ≤ 1)
    × (sum_datagrams out ≤ 5000)
    × All (IsDue sent.sent_datagrams 300_000_000) out
    × SameDatagrams sent.sent_datagrams s'.sent_datagrams
collect_resendable_one =
    collect_resendable_lem sent 300_000_000 1 5000 (unfold lookup in (refl, (refl, tt)))
