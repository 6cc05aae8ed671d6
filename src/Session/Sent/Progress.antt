-- ===== src/Session/Sent/Progress.antt =====
-- The receipts that are reported for the datagrams acknowledged.
use raknet_rust.Common.{
  ℕ, zero, suc, ◌+◌, ◌≤◌, ◌<◌, ◌≡◌, refl, sym, ap, ◌∙◌, inl, inr, true, not, ◌&&◌, ◌==◌, ltb, List,
  [], ◌∷◌, All, none, some, Bool-cases, Option-cases, arith,
}
use raknet_rust.Common.Int.{max_u64}
use raknet_rust.Common.Map.{lookup, remove}
use raknet_rust.Common.Floats.{Floats}
use raknet_rust.Protocol.Sequence24.{Sequence24, IsSeq, modulo, next, distance_to, lt}
use raknet_rust.Protocol.Sequence24.Arith.{next-IsSeq, distance_to-next}
use raknet_rust.Protocol.Ack.{SequenceRange}
use raknet_rust.Protocol.Datagram.{Datagram}
use raknet_rust.Session.Congestion.{Seconds}
use raknet_rust.Session.Sent.{
  TrackedDatagram, ReceiptProgress, Sent, insert_sent, update_sent, track_sent_reliable_datagram,
  for_each_sequence, for_each_range, has_reliable, has_ack_receipt, is_empty, ack_tracked,
  ack_sequence, nack_tracked, nack_sequence,
}
use raknet_rust.Session.Sent.Receipts.{
  times, times-append, IsCounted, IsCounted-ext, falls, ack_receipts_lem, count_receipts_lem,
}

-- How many datagrams in flight carry a receipt.
unfoldable pub in_flight : ℕ → List (ℕ × TrackedDatagram) → ℕ
in_flight id [] = 0
in_flight id ((j, w) ∷ m) = times id w.receipt_ids + in_flight id m

in_flight-remove :
    (id k : ℕ) (v : TrackedDatagram) (m : List (ℕ × TrackedDatagram))
    → lookup k m ≡ some v
    → in_flight id (remove k m) + times id v.receipt_ids ≡ in_flight id m
unfolding in_flight lookup remove
in_flight-remove id k v [] e = cc
in_flight-remove id k v ((j, w) ∷ m) e = elim (Bool-cases (j == k)) [
  | inl t ↦ let same : w ≡ v = ground arith in rw (t, ← same) (omega arith)
  | inr f ↦ rw f (omega (arith, in_flight-remove id k v m (ground arith)))
]

in_flight-update_sent :
    (id k : ℕ) (v w : TrackedDatagram) (m : List (ℕ × TrackedDatagram))
    → lookup k m ≡ some w
    → v.receipt_ids ≡ w.receipt_ids
    → in_flight id (update_sent k v m) ≡ in_flight id m
unfolding in_flight lookup update_sent
in_flight-update_sent id k v w [] e r = refl
in_flight-update_sent id k v w ((j, x) ∷ m) e r = elim (Bool-cases (j == k)) [
  | inl t ↦
      let same : x ≡ w = ground arith in
      rw t (ap (λ ids. times id ids + in_flight id m) (r ∙ ap (λ y. y.receipt_ids) (sym same)))
  | inr f ↦
      rw f
        (ap (λ n. times id x.receipt_ids + n) (in_flight-update_sent id k v w m (ground arith) r))
]

in_flight-insert_sent :
    (id k : ℕ) (v : TrackedDatagram) (m : List (ℕ × TrackedDatagram))
    → lookup k m ≡ none
    → in_flight id (insert_sent k v m) ≡ in_flight id m + times id v.receipt_ids
unfolding in_flight lookup insert_sent
in_flight-insert_sent id k v [] e = omega arith
in_flight-insert_sent id k v ((j, x) ∷ m) e = elim (Bool-cases (j == k)) [
  | inl t ↦ absurd (ground arith)
  | inr f ↦ elim (Bool-cases (lt k j)) [
    | inl t ↦ rw (f, t) (omega arith)
    | inr g ↦ rw (f, g) (omega (arith, in_flight-insert_sent id k v m (ground arith)))
  ]
]

-- The counter of every receipt is the number of datagrams in flight that carry it.
abbrev pub IsSent : {F : Type 0} → Sent F → Type 0
IsSent s = IsCounted s.receipt_tracking (λ id. in_flight id s.sent_datagrams)

-- Going from `s` to the sent datagrams of a state, the receipts in its progress were added that are not
-- in flight any more.
pub record Reported {F : Type 0} (s : Sent F) (r : Sent F × ReceiptProgress) : Type 0 where
  pub valid : IsSent r.0
  pub fewer : (id : ℕ) → in_flight id r.0.sent_datagrams ≤ in_flight id s.sent_datagrams
  pub reported :
      (id : ℕ)
      → times id r.1.acked_receipt_ids
        ≡ falls (in_flight id s.sent_datagrams) (in_flight id r.0.sent_datagrams)

falls_trans : (a b c : ℕ) → b ≤ a → c ≤ b → falls a b + falls b c ≡ falls a c
falls_trans a b c h k = ground arith

module _ {F : Type 0} ⦃d : Floats F⦄ ⦃t : Seconds F⦄ where
  pub ack_sequence-Reported :
      (s : Sent F) (now : ℕ) (r : Sent F × ReceiptProgress) (seq : Sequence24)
      → Reported s r
      → Reported s (ack_sequence now r seq)
  unfolding ack_sequence ack_tracked
  ack_sequence-Reported s now r seq v = elim (Option-cases (lookup seq r.0.sent_datagrams)) [
    | inr (acked, e) ↦
        let m = r.0.sent_datagrams in
        let gone = λ (j : ℕ). in_flight-remove j seq acked m e in
        let (counted, ids) =
          ack_receipts_lem r.0.receipt_tracking (λ j. in_flight j m) acked.receipt_ids v.valid
            (λ j. omega (arith, gone j)) in
        rw e record {
          valid = IsCounted-ext _ _ _ (λ j. omega (arith, gone j)) counted;
          fewer = λ j. omega (arith, gone j, v.fewer j);
          reported = λ j.
              times-append j r.1.acked_receipt_ids _
              ∙ ground (arith, v.reported j, v.fewer j, ids j, gone j);
        }
    | inl e ↦ rw e v
  ]

  pub nack_sequence-Reported :
      (s : Sent F) (now : ℕ) (r : Sent F × ReceiptProgress) (seq : Sequence24)
      → Reported s r
      → Reported s (nack_sequence now r seq)
  unfolding nack_sequence nack_tracked
  nack_sequence-Reported s now r seq v = elim (Option-cases (lookup seq r.0.sent_datagrams)) [
    | inl e ↦ rw e v
    | inr (entry, e) ↦ elim (Bool-cases (entry.resendable && ltb now entry.next_send)) [
      | inl t ↦
          let same = λ (j : ℕ).
            in_flight-update_sent j seq
              (record entry { next_send = now; nack_resend_pending = true }) entry
              r.0.sent_datagrams e refl in
          rw (e, t)
            record {
              valid = IsCounted-ext _ _ _ (λ j. sym (same j)) v.valid;
              fewer = λ j. omega (arith, same j, v.fewer j);
              reported =
                  λ j. v.reported j ∙ ap (falls (in_flight j s.sent_datagrams)) (sym (same j));
            }
      | inr f ↦ rw (e, f) v
    ]
  ]

-- A loop over a range ends, and keeps what every round keeps.
for_each_sequence-keeps :
    {S : Type 0} (I : S → Type 0) (f : S → Sequence24 → S) (fuel : ℕ) (s : S) (a b : Sequence24)
    → ((s : S) (x : Sequence24) → I s → I (f s x))
    → IsSeq a
    → IsSeq b
    → distance_to a b < fuel
    → I s
    → (s' : S) × (for_each_sequence fuel f s a b ≡ some s') × I s'
unfolding for_each_sequence
for_each_sequence-keeps I f zero s a b k ha hb h v = absurd (omega arith)
for_each_sequence-keeps I f (suc fuel) s a b k ha hb h v = elim (Bool-cases (a == b)) [
  | inl t ↦ (f s a, rw (for_each_sequence, t) refl, k s a v)
  | inr g ↦
      let near = (distance_to-next a b ha hb).0 (ground arith) in
      let (s', e, w) =
        for_each_sequence-keeps I f fuel (f s a) (next a) b k (next-IsSeq a) hb
          (omega (arith, near)) (k s a v) in
      (s', rw (for_each_sequence, g) e, w)
]

-- The ends of a range are sequence numbers.
abbrev pub IsRange : SequenceRange → Type 0
IsRange r = IsSeq r.start × IsSeq r.end

distance_lt : (a b : ℕ) → distance_to a b < modulo
unfolding distance_to
distance_lt a b = ground arith

pub for_each_range-keeps :
    {S : Type 0} (I : S → Type 0) (f : S → Sequence24 → S) (s : S) (rs : List SequenceRange)
    → ((s : S) (x : Sequence24) → I s → I (f s x))
    → All IsRange rs
    → I s
    → (s' : S) × (for_each_range f s rs ≡ some s') × I s'
unfolding for_each_range
for_each_range-keeps I f s [] k h v = (s, refl, v)
for_each_range-keeps I f s (r ∷ rs) k h v =
    let (s', e, w) =
      for_each_sequence-keeps I f modulo s r.start r.end k h.0.0 h.0.1 (distance_lt r.start r.end)
        v in
    let (s'', e', w') = for_each_range-keeps I f s' rs k h.1 w in
    (s'', rw (for_each_range, e) e', w')

module _ {F : Type 0} ⦃d : Floats F⦄ ⦃t : Seconds F⦄ where
  -- A datagram that is sent for the first time keeps the counters of the receipts right. Its number is
  -- not in use, and no counter overflows.
  pub track_sent_reliable_datagram-IsSent :
      (s : Sent F) (g : Datagram) (now : ℕ) (ids : List ℕ)
      → IsSent s
      → lookup g.header.sequence s.sent_datagrams ≡ none
      → ((j : ℕ) → in_flight j s.sent_datagrams + times j ids ≤ max_u64)
      → IsSent (track_sent_reliable_datagram s g now ids)
  unfolding track_sent_reliable_datagram
  track_sent_reliable_datagram-IsSent s g now ids v fresh room =
      elim (Bool-cases
        (not (has_reliable g.payload) && not (has_ack_receipt g.payload) && is_empty ids)) [
          | inl t ↦ rw t v
          | inr f ↦ rw f (
              IsCounted-ext _ _ _
                (λ j. sym (in_flight-insert_sent j g.header.sequence _ s.sent_datagrams fresh))
                (count_receipts_lem s.receipt_tracking _ ids v room))
        ]
