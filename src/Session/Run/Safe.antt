-- ===== src/Session/Run/Safe.antt =====
-- What the whole life of a session keeps.
use raknet_rust.Common.{
  ℕ, ◌≤◌, ◌<◌, ◌≡◌, refl, sym, subst, ◌∙◌, min, List, [], ◌∷◌, All, some, ok, arith,
}
use raknet_rust.Common.Int.{max_u64}
use raknet_rust.Common.Floats.{Floats, IsFloats}
use raknet_rust.Protocol.Constants.{raknet_datagram_header_size}
use raknet_rust.Protocol.Sequence24.{IsSeq}
use raknet_rust.Protocol.Datagram.{Datagram}
use raknet_rust.Session.Receive.{prune_split_state}
use raknet_rust.Session.Receive.Invariant.{IsReceiver, PayloadSeqs, ingest_datagram-IsReceiver}
use raknet_rust.Session.Send.{SoftLimit, queue_payload_with_receipt}
use raknet_rust.Session.Send.Limits.{IsSender, queue_payload_with_receipt-IsSender}
use raknet_rust.Session.Congestion.{Seconds, refresh_pacing_budget, consume_pacing_budget}
use raknet_rust.Session.Congestion.Window.{IsCongestion}
use raknet_rust.Session.Sent.Progress.{IsRange}
use raknet_rust.Session.Retransmit.{collect_resendable, sum_datagrams}
use raknet_rust.Session.Dispatch.{MinHeap}
use raknet_rust.Session.Dispatch.Whole.{IsQueued}
use raknet_rust.Session.Tick.{
  Session, flush_control, pacing_limit, new_bytes_budget, with_congestion, on_tick,
  process_incoming_receipts,
}
use raknet_rust.Session.Tick.Bounds.{send_new-Sends}
use raknet_rust.Session.Tunables.{SessionTunables}
use raknet_rust.Session.Tunables.Checks.{validate}
use raknet_rust.Session.Start.{with_tunables}
use raknet_rust.Session.Start.Valid.{with_tunables-IsSession}
use raknet_rust.Session.Run.{Call, ingest, queue, process, tick, call, run}
use raknet_rust.Session.Run.Receiving.{
  AreRanges, PayloadRanges, ingest_datagram-AreRanges, tick-IsReceiver,
}
use raknet_rust.Session.Run.Sending.{queue_payload_with_receipt-Holds}
use raknet_rust.Session.Run.Window.{
  consume_pacing_budget-IsCongestion, refresh_pacing_budget-IsCongestion,
  process_receipts-IsCongestion, collect_resendable-IsCongestion,
}

-- A datagram as the decoder makes it: its numbers are 24-bit numbers.
abbrev pub IsDecoded : Datagram → Type 0
IsDecoded g = IsSeq g.header.sequence × PayloadSeqs g.payload × PayloadRanges g.payload

abbrev pub IsCall : Call → Type 0
IsCall (ingest g now) = IsDecoded g
IsCall (queue payload rel channel priority receipt_id) = Unit {0}
IsCall (process now) = Unit {0}
IsCall (tick now max_new max_new_bytes max_again max_again_bytes) = Unit {0}

module _ ⦃l : SoftLimit⦄ ⦃h : MinHeap⦄ {F : Type 0} ⦃d : Floats F⦄ ⦃t : Seconds F⦄ where
  -- The parts of a session, in the course of its life, with the MTU it has.
  pub record IsAlive (mtu : ℕ) (s : Session F) : Type 0 where
    pub receiver : IsReceiver s.receiver
    pub ranges : AreRanges s.receiver
    pub sender : IsSender s.sender
    pub queued : All IsQueued s.sender.outgoing_heap
    pub same : s.sender.mtu ≡ mtu
    pub header : raknet_datagram_header_size ≤ mtu
    pub short : mtu < 8192
    pub congestion : IsCongestion s.sent.congestion

  ingest-IsAlive :
      (mtu : ℕ) (s : Session F) (g : Datagram) (now : ℕ)
      → IsAlive mtu s
      → IsDecoded g
      → (s' : Session F) × (call s (ingest g now) ≡ some s') × IsAlive mtu s'
  unfolding call
  ingest-IsAlive mtu s g now v (seq, seqs, ranges) =
      let (x, e, w) = ingest_datagram-IsReceiver s.receiver g now v.receiver seq seqs in
      (
        record s { receiver = x.0 },
        rw e refl,
        record {
          receiver = w;
          ranges = ingest_datagram-AreRanges s.receiver g now x v.ranges ranges e;
          sender = v.sender;
          queued = v.queued;
          header = v.header;
          same = v.same;
          short = v.short;
          congestion = v.congestion;
        },
      )

  module _ (law : IsFloats F) where
    process-IsAlive :
        (mtu : ℕ) (s : Session F) (now : ℕ)
        → IsAlive mtu s
        → (s' : Session F) × (call s (process now) ≡ some s') × IsAlive mtu s'
    unfolding call process_incoming_receipts
    process-IsAlive mtu s now v =
        let (r, e, w) =
          process_receipts-IsCongestion law s.sent s.receiver.incoming_acks
            s.receiver.incoming_nacks now v.ranges.0 v.ranges.1 v.congestion in
        (
          record s {
            receiver = record s.receiver { incoming_acks = []; incoming_nacks = [] };
            sent = r.0;
          },
          rw (call, process_incoming_receipts, e) refl,
          record {
            receiver = record {
              flow = v.receiver.flow;
              tracker = v.receiver.tracker;
              assembler = v.receiver.assembler;
              indices = v.receiver.indices;
              channels = v.receiver.channels;
            };
            ranges = (tt, tt);
            sender = v.sender;
            queued = v.queued;
            header = v.header;
            same = v.same;
            short = v.short;
            congestion = w;
          },
        )

    tick-IsAlive :
        (mtu : ℕ) (s : Session F) (now max_new max_new_bytes max_again max_again_bytes : ℕ)
        → IsAlive mtu s
        → (s' : Session F) × (call s (tick now max_new max_new_bytes max_again max_again_bytes)
            ≡ some s')
          × IsAlive mtu s'
    unfolding call on_tick with_congestion
    tick-IsAlive mtu s now max_new max_new_bytes max_again max_again_bytes v =
        let c = refresh_pacing_budget s.sent.congestion s.sender.mtu now in
        let paced = with_congestion s.sent c in
        let limit = min max_again_bytes (pacing_limit c) in
        let (resent, resends) = collect_resendable paced now max_again limit in
        let c' = consume_pacing_budget resent.congestion (sum_datagrams resends) in
        let charged = with_congestion resent c' in
        let budget = new_bytes_budget c' s.sender max_new_bytes in
        let short = v.short in
        let same = v.same in
        let (r, e, w) =
          send_new-Sends max_new charged s.sender now budget (omega (arith, v.header)) (omega arith)
            v.sender v.queued in
        let flow = (flush_control s.ack_nack_priority s.receiver.flow now).0 in
        let refreshed =
          refresh_pacing_budget-IsCongestion s.sent.congestion s.sender.mtu now v.congestion in
        let backed = collect_resendable-IsCongestion law paced now max_again limit refreshed in
        let spent =
          consume_pacing_budget-IsCongestion resent.congestion (sum_datagrams resends) backed in
        let (receiver, ranges) =
          tick-IsReceiver s.ack_nack_priority s.receiver now v.receiver v.ranges in
        (
          record s {
            receiver = (prune_split_state (record s.receiver { flow = flow }) now).0;
            sender = r.sender;
            sent =
                with_congestion r.sent
                  (consume_pacing_budget r.sent.congestion (sum_datagrams r.datagrams));
          },
          rw (call, on_tick, e) refl,
          record {
            receiver = receiver;
            ranges = ranges;
            sender = w.sender;
            queued = w.queued;
            same = w.mtu ∙ v.same;
            header = v.header;
            short = v.short;
            congestion =
                consume_pacing_budget-IsCongestion r.sent.congestion (sum_datagrams r.datagrams)
                  (subst IsCongestion (sym w.congestion) spent);
          },
        )

    call-IsAlive :
        (mtu : ℕ) (s : Session F) (c : Call)
        → IsAlive mtu s
        → IsCall c
        → (s' : Session F) × (call s c ≡ some s') × IsAlive mtu s'
    call-IsAlive mtu s (ingest g now) v k = ingest-IsAlive mtu s g now v k
    call-IsAlive mtu s (process now) v k = process-IsAlive mtu s now v
    call-IsAlive mtu s (tick now n b m c) v k = tick-IsAlive mtu s now n b m c v
    call-IsAlive mtu s (queue payload rel channel p receipt) v k =
        let (same, queued) =
          queue_payload_with_receipt-Holds mtu s.sender payload rel channel p receipt
            (v.same, v.queued) in
        (
          record s {
            sender = (queue_payload_with_receipt s.sender payload rel channel p receipt).0;
          },
          unfold call in refl,
          record {
            receiver = v.receiver;
            ranges = v.ranges;
            sender =
                queue_payload_with_receipt-IsSender s.sender payload rel channel p receipt v.sender
                  (omega (arith, v.same, v.short));
            queued = queued;
            same = same;
            header = v.header;
            short = v.short;
            congestion = v.congestion;
          },
        )

    pub run-IsAlive :
        (mtu : ℕ) (s : Session F) (cs : List Call)
        → IsAlive mtu s
        → All IsCall cs
        → (s' : Session F) × (run s cs ≡ some s') × IsAlive mtu s'
    unfolding run
    run-IsAlive mtu s [] v k = (s, refl, v)
    run-IsAlive mtu s (c ∷ cs) v k =
        let (s', e, w) = call-IsAlive mtu s c v k.0 in
        let (s'', e', w') = run-IsAlive mtu s' cs w k.1 in (s'', rw (run, e) e', w')

    -- A session is made from settings that are valid, with an MTU below 8192 that has room for a header,
    -- and any calls are made of it, with datagrams whose numbers are 24-bit numbers as the decoder makes
    -- them. No call of `clamp` panics while it is made, and every loop of every call ends. Afterwards the
    -- queues of acknowledgements, the tracker, the assembler, the ordering channels and the queue of
    -- frames are within their limits, the congestion window is between its own, and the MTU of the queue
    -- is the same. The limits of the queue are below 2 ^ 64 - 1.
    pub run-with_tunables :
        (mtu : ℕ) (settings : SessionTunables F) (now : ℕ) (cs : List Call)
        → validate settings ≡ ok tt
        → settings.outgoing_queue_max_frames < max_u64
        → settings.outgoing_queue_max_bytes < max_u64
        → raknet_datagram_header_size ≤ mtu
        → mtu < 8192
        → All IsCall cs
        → (s : Session F) × (s' : Session F) × (with_tunables mtu settings now ≡ some s)
          × (run s cs ≡ some s')
          × IsAlive mtu s'
    run-with_tunables mtu settings now cs valid frames bytes header short k =
        let (s, e, v) = with_tunables-IsSession law mtu settings now valid frames bytes in
        let alive : IsAlive mtu s = record {
          receiver = v.receiver;
          ranges = (
            subst (λ rs. All IsRange rs) (sym v.acks) tt,
            subst (λ rs. All IsRange rs) (sym v.nacks) tt,
          );
          sender = v.sender;
          queued = v.queued;
          same = v.sender_mtu;
          header = header;
          short = short;
          congestion = v.congestion;
        } in
        let (s', e', w) = run-IsAlive mtu s cs alive k in (s, s', e, e', w)
