-- ===== src/Session/Sent/Table.antt =====
-- The table of sent datagrams: which of them an acknowledgement takes out.
use raknet_rust.Common.{
  ℕ, zero, suc, ◌≡◌, refl, sym, ap, ◌∙◌, inl, inr, Bool, true, false, ◌&&◌, ◌||◌, leb,
  if◌then◌else◌, subst, Option, ◌==◌, ltb, List, [], ◌∷◌, All, none, some, Bool-cases, Option-cases,
  arith,
}
use raknet_rust.Common.Map.{lookup, remove}
use raknet_rust.Common.Floats.{Floats}
use raknet_rust.Protocol.Sequence24.{IsSeq, modulo, next, distance_to}
use raknet_rust.Protocol.Sequence24.Arith.{next-IsSeq}
use raknet_rust.Protocol.Ack.{SequenceRange}
use raknet_rust.Protocol.Datagram.{Datagram}
use raknet_rust.Session.Congestion.{Seconds}
use raknet_rust.Session.Sent.{
  TrackedDatagram, ReceiptProgress, Sent, update_sent, for_each_sequence, for_each_range,
  ack_tracked, ack_sequence, nack_tracked, nack_sequence,
}
use raknet_rust.Session.Sent.Progress.{IsRange}

-- No number stands twice in the table.
abbrev pub IsDistinct : List (ℕ × TrackedDatagram) → Type 0
IsDistinct [] = Unit {0}
IsDistinct ((j, w) ∷ m) = (lookup j m ≡ none) × IsDistinct m

-- The datagram under a number, with its receipts.
abbrev pub sent_at : ℕ → List (ℕ × TrackedDatagram) → Option (Datagram × List ℕ)
sent_at k m = elim (lookup k m) [ none ↦ none | some w ↦ some (w.datagram, w.receipt_ids) ]

-- Whether a number lies in one of the ranges: walking from the start, it is met before the end is passed.
abbrev pub lies_in : List SequenceRange → ℕ → Bool
lies_in [] k = false
lies_in (r ∷ rs) k = leb (distance_to r.start k) (distance_to r.start r.end) || lies_in rs k

lookup-removed :
    (k i : ℕ) (m : List (ℕ × TrackedDatagram))
    → IsDistinct m
    → lookup i (remove k m) ≡ (if k == i then none else lookup i m)
unfolding lookup remove
lookup-removed k i [] h = ground arith
lookup-removed k i ((j, w) ∷ m) h = elim (Bool-cases (j == k)) [
  | inl t ↦ elim (Bool-cases (k == i)) [
    | inl e ↦ let same : j ≡ i = ground arith in rw (t, e) (subst (λ x. lookup x m ≡ none) same h.0)
    | inr n ↦ let apart : (j == i) ≡ false = ground arith in rw (t, n, apart) refl
  ]
  | inr f ↦ elim (Bool-cases (j == i)) [
    | inl e ↦ let apart : (k == i) ≡ false = ground arith in rw (f, e, apart) refl
    | inr n ↦ rw (f, n) (lookup-removed k i m h.1)
  ]
]

remove-IsDistinct :
    (k : ℕ) (m : List (ℕ × TrackedDatagram)) → IsDistinct m → IsDistinct (remove k m)
unfolding remove
remove-IsDistinct k [] h = tt
remove-IsDistinct k ((j, w) ∷ m) h = elim (Bool-cases (j == k)) [
  | inl t ↦ rw t h.1
  | inr f ↦
      let apart : (k == j) ≡ false = ground arith in
      rw f (lookup-removed k j m h.1 ∙ rw apart h.0, remove-IsDistinct k m h.1)
]

lookup-updated :
    (k i : ℕ) (v w : TrackedDatagram) (m : List (ℕ × TrackedDatagram))
    → lookup k m ≡ some w
    → lookup i (update_sent k v m) ≡ (if k == i then some v else lookup i m)
unfolding lookup update_sent
lookup-updated k i v w [] e = cc
lookup-updated k i v w ((j, x) ∷ m) e = elim (Bool-cases (j == k)) [
  | inl t ↦ elim (Bool-cases (k == i)) [
    | inl u ↦ rw (t, u) refl
    | inr n ↦ let apart : (j == i) ≡ false = ground arith in rw (t, n, apart) refl
  ]
  | inr f ↦ elim (Bool-cases (j == i)) [
    | inl u ↦ let apart : (k == i) ≡ false = ground arith in rw (f, u, apart) refl
    | inr n ↦ rw (f, n) (lookup-updated k i v w m (ground arith))
  ]
]

abbrev sent_of : Option TrackedDatagram → Option (Datagram × List ℕ)
sent_of o = elim o [ none ↦ none | some w ↦ some (w.datagram, w.receipt_ids) ]

sent_at-update_sent :
    (i k : ℕ) (v w : TrackedDatagram) (m : List (ℕ × TrackedDatagram))
    → lookup k m ≡ some w
    → v.datagram ≡ w.datagram
    → v.receipt_ids ≡ w.receipt_ids
    → sent_at i (update_sent k v m) ≡ sent_at i m
sent_at-update_sent i k v w m e g r =
    ap sent_of (lookup-updated k i v w m e) ∙ elim (Bool-cases (k == i)) [
      | inl t ↦
          let here : lookup i m ≡ some w = subst (λ y. lookup y m ≡ some w) (ground arith) e in
          let same : sent_of (some v) ≡ sent_of (some w) =
            ap (λ y. some (y, v.receipt_ids)) g ∙ ap (λ y. some (w.datagram, y)) r in
          ap (λ (c : Bool). sent_of (if c then some v else lookup i m)) t
          ∙ same
          ∙ ap sent_of (sym here)
      | inr n ↦ ap (λ (c : Bool). sent_of (if c then some v else lookup i m)) n
    ]

-- The first number of a range, or one behind it.
covers_step :
    (a b k : ℕ)
    → IsSeq a
    → IsSeq b
    → IsSeq k
    → (a == b) ≡ false
    → leb (distance_to a k) (distance_to a b)
      ≡ (a == k || leb (distance_to (next a) k) (distance_to (next a) b))
unfolding distance_to next
covers_step a b k ha hb hk n = ground arith

covers_one :
    (a b k : ℕ)
    → IsSeq a
    → IsSeq k
    → (a == b) ≡ true
    → leb (distance_to a k) (distance_to a b) ≡ (a == k)
unfolding distance_to
covers_one a b k ha hk t = ground arith

either :
    {A : Type 0} (b c : Bool) (x : Option A)
    → (if c then none else if b then none else x) ≡ (if b || c then none else x)
either true true x = refl
either true false x = refl
either false true x = refl
either false false x = refl

module _ {F : Type 0} ⦃d : Floats F⦄ ⦃t : Seconds F⦄ where
  ack_sequence-sent_at :
      (now : ℕ) (r : Sent F × ReceiptProgress) (x k : ℕ)
      → IsDistinct r.0.sent_datagrams
      → IsDistinct (ack_sequence now r x).0.sent_datagrams
        × (sent_at k (ack_sequence now r x).0.sent_datagrams
            ≡ (if x == k then none else sent_at k r.0.sent_datagrams))
  unfolding ack_sequence ack_tracked
  ack_sequence-sent_at now r x k h = elim (Option-cases (lookup x r.0.sent_datagrams)) [
    | inr (acked, e) ↦ rw e (
      remove-IsDistinct x r.0.sent_datagrams h,
      elim (Bool-cases (x == k)) [
        | inl t ↦ ap sent_of (lookup-removed x k r.0.sent_datagrams h) ∙ rw t refl
        | inr f ↦ ap sent_of (lookup-removed x k r.0.sent_datagrams h) ∙ rw f refl
      ],
    )
    | inl e ↦ rw e (
      h,
      elim (Bool-cases (x == k)) [
        | inl t ↦
            let same : lookup k r.0.sent_datagrams ≡ none =
              subst (λ y. lookup y r.0.sent_datagrams ≡ none) (ground arith) e in
            ap sent_of same
            ∙ ap (λ (c : Bool). if c then none else sent_at k r.0.sent_datagrams) (sym t)
        | inr f ↦ rw f refl
      ],
    )
  ]

  pub nack_sequence-sent_at :
      (now : ℕ) (r : Sent F × ReceiptProgress) (x k : ℕ)
      → sent_at k (nack_sequence now r x).0.sent_datagrams ≡ sent_at k r.0.sent_datagrams
  unfolding nack_sequence nack_tracked
  nack_sequence-sent_at now r x k = elim (Option-cases (lookup x r.0.sent_datagrams)) [
    | inl e ↦ rw e refl
    | inr (entry, e) ↦ elim (Bool-cases (entry.resendable && ltb now entry.next_send)) [
      | inr f ↦ rw (e, f) refl
      | inl t ↦ rw (e, t) (sent_at-update_sent k x _ entry r.0.sent_datagrams e refl refl)
    ]
  ]

  acked_sequences :
      (fuel now : ℕ) (r r' : Sent F × ReceiptProgress) (a b : ℕ)
      → IsSeq a
      → IsSeq b
      → IsDistinct r.0.sent_datagrams
      → for_each_sequence fuel (ack_sequence now) r a b ≡ some r'
      → IsDistinct r'.0.sent_datagrams
        × ((k : ℕ)
            → IsSeq k
            → sent_at k r'.0.sent_datagrams ≡ (
                if leb (distance_to a k) (distance_to a b)
                then none
                else sent_at k r.0.sent_datagrams))
  unfolding for_each_sequence
  acked_sequences zero now r r' a b ha hb h e = cc
  acked_sequences (suc fuel) now r r' a b ha hb h e = elim (Bool-cases (a == b)) [
    | inl t ↦
        let done : some (ack_sequence now r a) ≡ some r' = rw (for_each_sequence, t) at e in
        let same : ack_sequence now r a ≡ r' = cc in
        subst
          (λ r'.
            IsDistinct r'.0.sent_datagrams
            × ((k : ℕ)
                → IsSeq k
                → sent_at k r'.0.sent_datagrams ≡ (
                    if leb (distance_to a k) (distance_to a b)
                    then none
                    else sent_at k r.0.sent_datagrams)))
          same
          (
            (ack_sequence-sent_at now r a a h).0,
            λ k hk.
                (ack_sequence-sent_at now r a k h).1
                ∙ ap (λ c. if c then none else sent_at k r.0.sent_datagrams)
                    (sym (covers_one a b k ha hk t)),
          )
    | inr n ↦
        let rest : for_each_sequence fuel (ack_sequence now) (ack_sequence now r a) (next a) b
            ≡ some r' =
          rw (for_each_sequence, n) at e in
        let (distinct, left) =
          acked_sequences fuel now (ack_sequence now r a) r' (next a) b (next-IsSeq a) hb
            (ack_sequence-sent_at now r a a h).0 rest in
        (
          distinct,
          λ k hk.
              let c = leb (distance_to (next a) k) (distance_to (next a) b) in
              left k hk
              ∙ ap (λ x. if c then none else x) (ack_sequence-sent_at now r a k h).1
              ∙ either (a == k) c (sent_at k r.0.sent_datagrams)
              ∙ ap (λ c. if c then none else sent_at k r.0.sent_datagrams)
                  (sym (covers_step a b k ha hb hk n)),
        )
  ]

  pub acked_ranges :
      (rs : List SequenceRange) (now : ℕ) (r r' : Sent F × ReceiptProgress)
      → All IsRange rs
      → IsDistinct r.0.sent_datagrams
      → for_each_range (ack_sequence now) r rs ≡ some r'
      → (k : ℕ) → IsSeq k
      → sent_at k r'.0.sent_datagrams
        ≡ (if lies_in rs k then none else sent_at k r.0.sent_datagrams)
  unfolding for_each_range
  acked_ranges [] now r r' h v e k hk =
      let same : r ≡ r' = cc in ap (λ r. sent_at k r.0.sent_datagrams) (sym same)
  acked_ranges (g ∷ rs) now r r' h v e k hk =
      elim (Option-cases (for_each_sequence modulo (ack_sequence now) r g.start g.end)) [
        | inl n ↦ let stuck : none ≡ some r' = rw (for_each_range, n) at e in cc
        | inr (q, y) ↦
            let rest : for_each_range (ack_sequence now) q rs ≡ some r' =
              rw (for_each_range, y) at e in
            let (distinct, left) = acked_sequences modulo now r q g.start g.end h.0.0 h.0.1 v y in
            acked_ranges rs now q r' h.1 distinct rest k hk
            ∙ ap (λ x. if lies_in rs k then none else x) (left k hk)
            ∙ either (leb (distance_to g.start k) (distance_to g.start g.end)) (lies_in rs k)
                (sent_at k r.0.sent_datagrams)
      ]
