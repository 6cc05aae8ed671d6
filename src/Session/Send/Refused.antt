-- ===== src/Session/Send/Refused.antt =====
-- Which payloads are refused, and how.
use raknet_rust.Common.{
  ℕ, ◌≡◌, ◌≤◌, ◌↔◌, ◌⊎◌, arith, leb, not, sym, ap, ◌∙◌, refl, inl, inr, Bool, true, false, List,
  length, Option, Bool-cases, if◌then◌else◌,
}
use raknet_rust.Protocol.Reliability.{
  Reliability, unreliable, unreliable_sequenced, reliable, reliable_ordered, reliable_sequenced,
  unreliable_with_ack_receipt, reliable_with_ack_receipt, reliable_ordered_with_ack_receipt,
  is_reliable,
}
use raknet_rust.Session.Outgoing.{
  RakPriority, immediate, high, normal, low, max_payload_for, normalize_reliability_for_split,
  BackpressureMode, delay, shed, disconnect, Sender,
}
use raknet_rust.Session.Send.{
  allow, defer, QueuePayloadResult, enqueued, dropped, disconnect_requested, SoftLimit,
  estimate_queue_impact, is_expendable, over_hard, count_drop, count_defer, request_disconnect,
  evaluate_backpressure, act, queue_payload_with_receipt,
}
use raknet_rust.Session.Send.Limits.{IsSender, OverHard, exceeds, exceeds_iff}

-- How a payload is refused, in a mode, when it does not fit.
abbrev Refuses :
    Bool → BackpressureMode → Bool → RakPriority → Sender → Sender × QueuePayloadResult → Type 0
Refuses over m rel p s r =
    ((r.1 ≡ disconnect_requested) ↔ ((over ≡ true) × (m ≡ disconnect)))
    × ((r.1 ≡ dropped) ↔ ((over ≡ true) × (m ≡ shed) × (is_expendable rel p ≡ true)))
    × ((r.0.outgoing_heap ≡ s.outgoing_heap) ⊎ ((n : ℕ) × (r.1 ≡ enqueued n)))

-- Of normal or low priority, or unreliable and so short that it goes out in one frame.
abbrev pub IsExpendable : Sender → List ℕ → Reliability → RakPriority → Type 0
IsExpendable s payload rel p =
    (p ≡ normal)
    ⊎ ((p ≡ low) ⊎ ((is_reliable rel ≡ false) × (length payload ≤ max_payload_for s rel false)))

split-reliable : (rel : Reliability) → is_reliable (normalize_reliability_for_split rel) ≡ false → ⊥
unfolding normalize_reliability_for_split is_reliable
split-reliable unreliable e = cc
split-reliable unreliable_sequenced e = cc
split-reliable reliable e = cc
split-reliable reliable_ordered e = cc
split-reliable reliable_sequenced e = cc
split-reliable unreliable_with_ack_receipt e = cc
split-reliable reliable_with_ack_receipt e = cc
split-reliable reliable_ordered_with_ack_receipt e = cc

module _ ⦃f : SoftLimit⦄ (s : Sender) (payload : List ℕ) (rel : Reliability) (channel : ℕ)
    (p : RakPriority) (receipt : Option ℕ) where
  -- What goes out in parts is made reliable.
  effective_lem :
      (is_reliable (estimate_queue_impact s (length payload) rel).2 ≡ false)
      ↔ ((is_reliable rel ≡ false) × (length payload ≤ max_payload_for s rel false))
  unfolding estimate_queue_impact
  effective_lem = elim (Bool-cases (leb (length payload) (max_payload_for s rel false))) [
    | inl t ↦ rw t (λ e. (e, ground arith), λ h. h.0)
    | inr f ↦ rw f (λ e. absurd (split-reliable rel e), λ h. absurd (ground arith))
  ]

  urgent :
      (q : RakPriority)
      → p ≡ q
      → ¬ (q ≡ normal)
      → ¬ (q ≡ low)
      → ((b : Bool) → is_expendable b q ≡ not b)
      → (is_expendable (is_reliable (estimate_queue_impact s (length payload) rel).2) p ≡ true)
        ↔ IsExpendable s payload rel p
  urgent q e n l same =
      let b = is_reliable (estimate_queue_impact s (length payload) rel).2 in
      let all : is_expendable b p ≡ not b = ap (is_expendable b) e ∙ same b in
      (
        λ h. inr (inr (effective_lem.0 (let f : not b ≡ true = sym all ∙ h in ground arith))),
        λ h. elim h [
          | inl x ↦ absurd (n (sym e ∙ x))
          | inr x ↦ elim x [
            | inl y ↦ absurd (l (sym e ∙ y))
            | inr y ↦ all ∙ ap not (effective_lem.1 y)
          ]
        ],
      )

  is_expendable-IsExpendable :
      (is_expendable (is_reliable (estimate_queue_impact s (length payload) rel).2) p ≡ true)
      ↔ IsExpendable s payload rel p
  is_expendable-IsExpendable = by_priority p refl
    where
      by_priority :
          (q : RakPriority)
          → p ≡ q
          → (is_expendable (is_reliable (estimate_queue_impact s (length payload) rel).2) p ≡ true)
            ↔ IsExpendable s payload rel p
      by_priority immediate e = urgent immediate e (λ x. cc) (λ x. cc) (λ b. refl)
      by_priority high e = urgent high e (λ x. cc) (λ x. cc) (λ b. refl)
      by_priority normal e = (λ h. inl e, λ h. rw e refl)
      by_priority low e = (λ h. inr (inl e), λ h. rw e refl)

  over_hard-Refuses :
      (m : BackpressureMode) (b : Bool)
      → Refuses true m b p s (act (over_hard m b p) s payload rel channel p receipt)
  unfolding over_hard act count_drop count_defer request_disconnect
  over_hard-Refuses delay b = ((λ e. cc, λ e. cc), (λ e. cc, λ e. cc), inl refl)
  over_hard-Refuses disconnect b = ((λ e. (refl, refl), λ e. refl), (λ e. cc, λ e. cc), inl refl)
  over_hard-Refuses shed b = elim (Bool-cases (is_expendable b p)) [
    | inl t ↦ rw t ((λ e. cc, λ e. cc), (λ e. (refl, refl, refl), λ e. refl), inl refl)
    | inr n ↦ rw n ((λ e. cc, λ e. cc), (λ e. cc, λ e. cc), inl refl)
  ]

  soft-Refuses :
      (m : BackpressureMode) (b soft : Bool)
      → Refuses false m b p s (act (if soft then defer else allow) s payload rel channel p receipt)
  unfolding act count_defer
  soft-Refuses m b true = ((λ e. cc, λ e. cc), (λ e. cc, λ e. cc), inl refl)
  soft-Refuses m b false = ((λ e. cc, λ e. cc), (λ e. cc, λ e. cc), inr (_, refl))

  decided :
      (frames bytes : ℕ) (effective : Reliability)
      → Refuses
          (exceeds s frames bytes)
          s.backpressure_mode
          (is_reliable effective)
          p
          s
          (act (evaluate_backpressure s frames bytes effective p) s payload rel channel p receipt)
  unfolding evaluate_backpressure exceeds
  decided frames bytes effective = elim (Bool-cases (exceeds s frames bytes)) [
    | inl t ↦ rw t (over_hard-Refuses s.backpressure_mode (is_reliable effective))
    | inr n ↦ rw n (soft-Refuses s.backpressure_mode (is_reliable effective) _)
  ]

  -- A payload asks for a disconnect exactly when it does not fit the limits of the queue and the mode is
  -- to disconnect; it is dropped exactly when it does not fit, the mode is to shed, and its priority is
  -- normal or low, or it is unreliable and goes out in one frame. And unless it is queued, the queue is as
  -- it was.
  pub queue_payload_refused :
      IsSender s
      → let (frames, bytes, effective) = estimate_queue_impact s (length payload) rel in
        let r = queue_payload_with_receipt s payload rel channel p receipt in
        ((r.1 ≡ disconnect_requested)
          ↔ (OverHard s frames bytes × (s.backpressure_mode ≡ disconnect)))
        × ((r.1 ≡ dropped) ↔ (
            OverHard s frames bytes × (s.backpressure_mode ≡ shed) × IsExpendable s payload rel p))
        × ((r.0.outgoing_heap ≡ s.outgoing_heap) ⊎ ((n : ℕ) × (r.1 ≡ enqueued n)))
  unfolding queue_payload_with_receipt
  queue_payload_refused v =
      let (frames, bytes, effective) = estimate_queue_impact s (length payload) rel in
      let (gone, lost, kept) = decided frames bytes effective in
      let (over, fits) = exceeds_iff s frames bytes v in
      let (shown, known) = is_expendable-IsExpendable in
      (
        (λ e. let h = gone.0 e in (over.0 h.0, h.1), λ h. gone.1 (over.1 h.0, h.1)),
        (
          λ e. let h = lost.0 e in (over.0 h.0, h.1, shown h.2),
          λ h. lost.1 (over.1 h.0, h.1, known h.2),
        ),
        kept,
      )
