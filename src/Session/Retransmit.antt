-- ===== src/Session/Retransmit.antt =====
-- src/session/mod.rs: the datagrams that are sent again, by `collect_resendable`.
pub mod Limits
use raknet_rust.Common.{
  ℕ, ◌+◌, min, Bool, true, false, not, ◌||◌, ltb, leb, if◌then◌else◌, List, [], ◌∷◌, ◌++◌, length,
  none, some,
}
use raknet_rust.Common.Int.{saturating_add}
use raknet_rust.Common.Map.{lookup}
use raknet_rust.Common.Floats.{Floats}
use raknet_rust.Protocol.Datagram.{Datagram, encoded_size}
use raknet_rust.Session.Congestion.{on_timeout}
use raknet_rust.Session.Sent.{TrackedDatagram, Sent, update_sent, is_empty}

-- The loop over the sent datagrams: the numbers of those that are due, and whether one timed out.
unfoldable pub select_due :
    ℕ → ℕ → ℕ → List (ℕ × TrackedDatagram) → ℕ → List ℕ → Bool → List ℕ × Bool
select_due now max_count max_bytes [] total selected timeout = (selected, timeout)
select_due now max_count max_bytes ((seq, tracked) ∷ m) total selected timeout =
    elim (leb max_count (length selected)) [
      | true ↦ (selected, timeout)
      | false ↦ elim (not tracked.resendable || ltb now tracked.next_send) [
        | true ↦ select_due now max_count max_bytes m total selected timeout
        | false ↦ elim (ltb max_bytes (total + encoded_size tracked.datagram)) [
          | true ↦ (selected, timeout)
          | false ↦
              select_due now max_count max_bytes m (total + encoded_size tracked.datagram)
                (selected ++ (seq ∷ [])) (timeout || not tracked.nack_resend_pending)
        ]
      ]
    ]

-- `map(Datagram::encoded_size).sum()`.
abbrev pub sum_datagrams : List Datagram → ℕ
sum_datagrams [] = 0
sum_datagrams (g ∷ gs) = encoded_size g + sum_datagrams gs

abbrev pub max_u32 : ℕ
max_u32 = 0xFFFF_FFFF

unfoldable pub resent : TrackedDatagram → ℕ → ℕ → TrackedDatagram
resent tracked now next_send_at = record tracked {
  send_time = now;
  next_send = next_send_at;
  retries = min (tracked.retries + 1) max_u32;
  nack_resend_pending = false;
}

unfoldable pub resend_all :
    ℕ → ℕ → List (ℕ × TrackedDatagram) → List ℕ → List (ℕ × TrackedDatagram) × List Datagram
resend_all now next_send_at m [] = (m, [])
resend_all now next_send_at m (seq ∷ seqs) = elim (lookup seq m) [
  | none ↦ resend_all now next_send_at m seqs
  | some tracked ↦
      let m' = update_sent seq (resent tracked now next_send_at) m in
      let (m'', out) = resend_all now next_send_at m' seqs in (m'', tracked.datagram ∷ out)
]

module _ {F : Type 0} ⦃d : Floats F⦄ where
  unfoldable pub resend : Sent F → ℕ → List ℕ → Sent F × List Datagram
  resend s now selected =
      let (m, out) = resend_all now (now + s.congestion.resend_rto) s.sent_datagrams selected in
      (
        record s {
          sent_datagrams = m;
          metrics = record s.metrics {
            resent_datagrams = saturating_add s.metrics.resent_datagrams (length out);
          };
        },
        out,
      )

  unfoldable pub collect_resendable : Sent F → ℕ → ℕ → ℕ → Sent F × List Datagram
  collect_resendable s now max_count max_bytes =
      let (selected, timeout) = select_due now max_count max_bytes s.sent_datagrams 0 [] false in
      let backed = record s { congestion = on_timeout s.congestion now } in
      if is_empty selected then (s, []) else resend (if timeout then backed else s) now selected
