-- ===== src/Session/Tick/Bounds.antt =====
-- What a tick may send.
use raknet_rust.Common.{
  ℕ, zero, suc, ◌+◌, ◌*◌, ◌≤◌, ◌<◌, ◌≡◌, refl, ap, ◌∙◌, subst, inl, inr, min, ◌||◌, ◌==◌, ltb, List,
  [], ◌∷◌, ◌++◌, length, length-append, All, Option, none, some, Bool-cases, arith,
}
use raknet_rust.Common.Int.{max_u64}
use raknet_rust.Common.Floats.{Floats}
use raknet_rust.Protocol.Constants.{raknet_datagram_header_size}
use raknet_rust.Protocol.Datagram.{Datagram, encoded_size}
use raknet_rust.Session.AckFlow
use raknet_rust.Session.AckFlow.{AckFlow, drain_ack_datagram, drain_nack_datagram}
use raknet_rust.Session.Receive.{prune_split_state}
use raknet_rust.Session.Outgoing.{Sender}
use raknet_rust.Session.Send.Limits.{IsSender}
use raknet_rust.Session.Congestion.{
  Congestion, Seconds, refresh_pacing_budget, consume_pacing_budget,
}
use raknet_rust.Session.Sent.{Sent}
use raknet_rust.Session.Retransmit.{collect_resendable, sum_datagrams}
use raknet_rust.Session.Retransmit.Limits.{IsTable, IsDue, collect_resendable_lem}
use raknet_rust.Session.Dispatch.{MinHeap, Built}
use raknet_rust.Session.Dispatch.Pick.{All-split}
use raknet_rust.Session.Dispatch.Whole.{IsQueued, IsBuilt, build_data_datagram-IsBuilt}
use raknet_rust.Session.Tick.{
  Session, AckNackPriority, nack_first, ack_first, Sending, datagrams_of, flush_ack_if_due,
  flush_nack_if_due, flush_control, send_built, send_new, pacing_limit, new_bytes_budget,
  with_congestion, on_tick,
}

flush_ack_lem : (f : AckFlow) (now : ℕ) → length (flush_ack_if_due f now).1 ≤ 1
unfolding flush_ack_if_due
flush_ack_lem f now =
    elim (Bool-cases (AckFlow.is_empty f.outgoing_acks || ltb now f.next_ack_flush_at)) [
      | inl t ↦ rw t (omega arith)
      | inr n ↦ rw n (one (drain_ack_datagram f now).1)
    ]
  where
    one : (g : Option Datagram) → length (datagrams_of g) ≤ 1
    one none = omega arith
    one (some g) = omega arith

flush_nack_lem : (f : AckFlow) (now : ℕ) → length (flush_nack_if_due f now).1 ≤ 1
unfolding flush_nack_if_due
flush_nack_lem f now =
    elim (Bool-cases (AckFlow.is_empty f.outgoing_nacks || ltb now f.next_nack_flush_at)) [
      | inl t ↦ rw t (omega arith)
      | inr n ↦ rw n (one (drain_nack_datagram f now).1)
    ]
  where
    one : (g : Option Datagram) → length (datagrams_of g) ≤ 1
    one none = omega arith
    one (some g) = omega arith

flush_control_lem :
    (p : AckNackPriority) (f : AckFlow) (now : ℕ) → length (flush_control p f now).1 ≤ 2
unfolding flush_control
flush_control_lem nack_first f now =
    let (f', nacks) = flush_nack_if_due f now in
    omega (
      arith,
      flush_nack_lem f now,
      flush_ack_lem f' now,
      length-append nacks (flush_ack_if_due f' now).1,
    )
flush_control_lem ack_first f now =
    let (f', acks) = flush_ack_if_due f now in
    omega (
      arith,
      flush_ack_lem f now,
      flush_nack_lem f' now,
      length-append acks (flush_nack_if_due f' now).1,
    )

module _ ⦃h : MinHeap⦄ {F : Type 0} ⦃d : Floats F⦄ where
  -- At most so many datagrams, whose frames take no more bytes than the budget; the queue stays right.
  pub record Sends (left remaining : ℕ) (sent : Sent F) (s : Sender) (r : Sending F) : Type 0 where
    pub count : length r.datagrams ≤ left
    pub bytes :
        sum_datagrams r.datagrams ≤ remaining + raknet_datagram_header_size * length r.datagrams
    pub sizes : All (λ g. encoded_size g ≤ s.mtu) r.datagrams
    pub sender : IsSender r.sender
    pub queued : All IsQueued r.sender.outgoing_heap
    pub mtu : r.sender.mtu ≡ s.mtu
    pub congestion : r.sent.congestion ≡ sent.congestion

  abbrev SentAgain : ℕ → (Sent F → Sender → ℕ → Option (Sending F)) → ℕ → Type 0
  SentAgain left again mtu =
      (sent : Sent F) (s : Sender) (remaining : ℕ)
      → IsSender s
      → All IsQueued s.outgoing_heap
      → s.mtu ≡ mtu
      → (r : Sending F) × (again sent s remaining ≡ some r) × Sends left remaining sent s r

  send_built-Sends :
      (left : ℕ) (again : Sent F → Sender → ℕ → Option (Sending F)) (sent : Sent F) (s : Sender)
      (remaining : ℕ) (b : Built F)
      → SentAgain left again s.mtu
      → All IsQueued s.outgoing_heap
      → IsBuilt sent s remaining b
      → (r : Sending F) × (send_built b again b.datagram ≡ some r)
        × Sends (suc left) remaining sent s r
  unfolding send_built
  send_built-Sends left again sent s remaining b more q w =
      let queued = (All-split IsQueued w.taken _ ((w.same.all IsQueued).1 q)).1 in
      elim w.outcome [
        | inl n ↦ (
          record { sender = b.sender; sent = b.sent; datagrams = [] },
          ap (send_built b again) n.datagram,
          record {
            count = omega arith;
            bytes = omega arith;
            sizes = tt;
            sender = w.sender;
            queued = queued;
            mtu = w.mtu;
            congestion = ap (λ x. x.congestion) n.unchanged;
          },
        )
        | inr m ↦ elim (Bool-cases (b.remaining == 0)) [
          | inl z ↦ (
            record { sender = b.sender; sent = b.sent; datagrams = m.value ∷ [] },
            ap (send_built b again) m.datagram ∙ rw (send_built, z) refl,
            record {
              count = omega arith;
              bytes = omega (arith, m.bytes, w.budget);
              sizes = (m.size, tt);
              sender = w.sender;
              queued = queued;
              mtu = w.mtu;
              congestion = m.congestion;
            },
          )
          | inr n ↦
              let (r, e, v) = more b.sent b.sender b.remaining w.sender queued w.mtu in
              (
                record r { datagrams = m.value ∷ r.datagrams },
                ap (send_built b again) m.datagram ∙ rw (send_built, n, e) refl,
                record {
                  count = omega (arith, v.count);
                  bytes = omega (arith, m.bytes, w.budget, v.bytes);
                  sizes = (
                    m.size,
                    subst (λ k. All (λ g. encoded_size g ≤ k) r.datagrams) w.mtu v.sizes,
                  );
                  sender = v.sender;
                  queued = v.queued;
                  mtu = v.mtu ∙ w.mtu;
                  congestion = v.congestion ∙ m.congestion;
                },
              )
        ]
      ]

  pub send_new-Sends :
      (left : ℕ) (sent : Sent F) (s : Sender) (now remaining : ℕ)
      → raknet_datagram_header_size ≤ s.mtu
      → s.mtu < max_u64
      → IsSender s
      → All IsQueued s.outgoing_heap
      → (r : Sending F) × (send_new left sent s now remaining ≡ some r)
        × Sends left remaining sent s r
  unfolding send_new
  send_new-Sends zero sent s now remaining m l v q = (
    record { sender = s; sent = sent; datagrams = [] },
    refl,
    record {
      count = omega arith;
      bytes = omega arith;
      sizes = tt;
      sender = v;
      queued = q;
      mtu = refl;
      congestion = refl;
    },
  )
  send_new-Sends (suc left) sent s now remaining m l v q =
      let (b, e, w) = build_data_datagram-IsBuilt sent s now remaining v q m l in
      let (r, e', u) =
        send_built-Sends left (λ sent s remaining. send_new left sent s now remaining) sent s
          remaining b
          (λ sent' s' k v' q' same.
            send_new-Sends left sent' s' now k (omega (arith, same, m)) (omega (arith, same, l)) v'
              q')
          q w in
      (r, rw (send_new, e) e', u)

  new_bytes_budget-le : (c : Congestion F) (s : Sender) (n : ℕ) → new_bytes_budget c s n ≤ n
  unfolding new_bytes_budget
  new_bytes_budget-le c s n = ground arith

  -- What goes out at a tick: acknowledgements, then datagrams again, then new ones.
  pub record IsTick (s : Session F) (now max_new max_new_bytes max_again max_again_bytes : ℕ)
      (s' : Session F) (out : List Datagram) : Type 0 where
    pub control : List Datagram
    pub again : List Datagram
    pub fresh : List Datagram
    pub order : out ≡ control ++ (again ++ fresh)
    pub few : length control ≤ 2
    pub again_count : length again ≤ max_again
    pub again_bytes : sum_datagrams again ≤ max_again_bytes
    pub again_due : All (IsDue s.sent.sent_datagrams now) again
    pub fresh_count : length fresh ≤ max_new
    pub fresh_bytes :
        sum_datagrams fresh ≤ max_new_bytes + raknet_datagram_header_size * length fresh
    pub fresh_sizes : All (λ g. encoded_size g ≤ s.sender.mtu) fresh
    pub sender : IsSender s'.sender
    pub queued : All IsQueued s'.sender.outgoing_heap

  module _ ⦃t : Seconds F⦄ where
    -- A tick ends. It sends two datagrams of acknowledgements at most, then datagrams again that are due,
    -- then new ones, each within its limits of datagrams and bytes, whatever the pacing allows; the new
    -- ones fit the MTU. The queue keeps its limits. The limit of new bytes counts frames, not headers.
    pub on_tick-IsTick :
        (s : Session F) (now max_new max_new_bytes max_again max_again_bytes : ℕ)
        → IsSender s.sender
        → All IsQueued s.sender.outgoing_heap
        → IsTable s.sent.sent_datagrams
        → raknet_datagram_header_size ≤ s.sender.mtu
        → s.sender.mtu < max_u64
        → (r : Session F × List Datagram) × (on_tick s now max_new max_new_bytes max_again
              max_again_bytes
            ≡ some r)
          × IsTick s now max_new max_new_bytes max_again max_again_bytes r.0 r.1
    unfolding on_tick with_congestion
    on_tick-IsTick s now max_new max_new_bytes max_again max_again_bytes v q table m l =
        let c = refresh_pacing_budget s.sent.congestion s.sender.mtu now in
        let paced = with_congestion s.sent c in
        let limit = min max_again_bytes (pacing_limit c) in
        let (resent, resends) = collect_resendable paced now max_again limit in
        let (count, bytes, due, same) = collect_resendable_lem paced now max_again limit table in
        let c' = consume_pacing_budget resent.congestion (sum_datagrams resends) in
        let charged = with_congestion resent c' in
        let budget = new_bytes_budget c' s.sender max_new_bytes in
        let (r, e, w) = send_new-Sends max_new charged s.sender now budget m l v q in
        let (flow, control) = flush_control s.ack_nack_priority s.receiver.flow now in
        (
          (
            record s {
              receiver = (prune_split_state (record s.receiver { flow = flow }) now).0;
              sender = r.sender;
              sent =
                  with_congestion r.sent
                    (consume_pacing_budget r.sent.congestion (sum_datagrams r.datagrams));
            },
            control ++ (resends ++ r.datagrams),
          ),
          rw (on_tick, e) refl,
          record {
            control = control;
            again = resends;
            fresh = r.datagrams;
            order = refl;
            few = flush_control_lem s.ack_nack_priority s.receiver.flow now;
            again_count = count;
            again_bytes = ground (arith, bytes);
            again_due = due;
            fresh_count = w.count;
            fresh_bytes = omega (arith, w.bytes, new_bytes_budget-le c' s.sender max_new_bytes);
            fresh_sizes = w.sizes;
            sender = w.sender;
            queued = w.queued;
          },
        )
