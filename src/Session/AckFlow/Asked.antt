-- ===== src/Session/AckFlow/Asked.antt =====
-- What the queue of refusals holds after a gap.
use raknet_rust.Common.{
  ℕ, zero, suc, ◌+◌, ◌-◌, ◌*◌, ◌≤◌, ◌<◌, ◌≡◌, refl, subst, ap, ◌∙◌, ◌↔◌, inl, inr, true, false,
  ◌==◌, leb, List, [], ◌∷◌, Option, some, none, Bool-cases, Option-cases, arith,
}
use raknet_rust.Protocol.Sequence24.{Sequence24, IsSeq, new, next, prev, distance_to, gt, value}
use raknet_rust.Protocol.Ack.{SequenceRange, range_of, split_wrapping, wraps}
use raknet_rust.Protocol.Ack.Cover.{Covers}
use raknet_rust.Session.AckQueue.{join, push_into, push}
use raknet_rust.Session.AckFlow.{AckFlow, push_ack, push_nack, process_datagram_sequence}
use raknet_rust.Session.AckFlow.Chunks.{chunks, missing, push_all}
use raknet_rust.Session.AckFlow.Gap.{gap_lem, process_datagram_sequence_lem}

-- A range that begins behind the only one is joined to it.
push_joined :
    (fuel max a e b f : ℕ)
    → 2 ≤ max
    → next e ≡ b
    → push_into (suc fuel) max (range_of a e ∷ []) (range_of b f) ≡ range_of a f ∷ []
unfolding push_into join
push_joined fuel max a e b f m n =
    let room : leb max 1 ≡ false = ground arith in
    let behind : (next e == b) ≡ true = ground (arith, n) in rw (room, behind) refl

-- What a range with these halves leaves in an empty queue.
abbrev pushed : ℕ → ℕ → SequenceRange → Option (SequenceRange × SequenceRange) → List SequenceRange
pushed fuel max r (some (left, right)) = push_into fuel max (push_into fuel max [] left) right
pushed fuel max r none = r ∷ []

push_empty :
    (fuel max : ℕ) (r : SequenceRange)
    → 2 ≤ max
    → push_into (suc fuel) max [] r ≡ pushed fuel max r (split_wrapping r)
unfolding push_into
push_empty fuel max r m =
    let none_yet : leb max 0 ≡ false = ground arith in
    rw none_yet
      (elim (Option-cases (split_wrapping r)) [ inl e ↦ rw e refl | inr (p, e) ↦ rw e refl ])

split_lem :
    (a e : ℕ)
    → (wraps (range_of a e) ≡ false → split_wrapping (range_of a e) ≡ none)
      × (wraps (range_of a e) ≡ true
          → split_wrapping (range_of a e) ≡ some (range_of a 16_777_215, range_of 0 e))
unfolding split_wrapping new
split_lem a e = (λ f. rw f refl, λ t. rw t refl)

flat_end : (a : ℕ) → IsSeq a → wraps (range_of a 16_777_215) ≡ false
unfolding wraps value
flat_end a h = ground arith

-- The halves of a range that wraps are joined again.
push_first :
    (max a e : ℕ) → 2 ≤ max → IsSeq a → push_into 2 max [] (range_of a e) ≡ range_of a e ∷ []
push_first max a e m h =
    push_empty 1 max (range_of a e) m ∙ elim (Bool-cases (wraps (range_of a e))) [
      | inr f ↦ ap (pushed 1 max (range_of a e)) ((split_lem a e).0 f)
      | inl t ↦
          let left =
            push_empty 0 max (range_of a 16_777_215) m
            ∙ ap (pushed 0 max (range_of a 16_777_215))
                ((split_lem a 16_777_215).0 (flat_end a h)) in
          ap (pushed 1 max (range_of a e)) ((split_lem a e).1 t)
          ∙ ap (λ q. push_into 1 max q (range_of 0 e)) left
          ∙ push_joined 0 max a 16_777_215 0 e m (unfold next in refl)
    ]

more_end :
    (b n : ℕ)
    → 8192 < n
    → (next (new (b + 8191)) ≡ new (b + 8192))
      × (new (new (b + 8192) + (n - 8192 - 1)) ≡ new (b + (n - 1)))
unfolding next new
more_end b n h = (omega arith, omega arith)

-- Ranges behind the only one of the queue make it longer.
push_all-joined :
    (fuel : ℕ) (s : AckFlow) (a e n now : ℕ)
    → 2 ≤ s.outgoing_nacks.max_ranges
    → s.outgoing_nacks.queue ≡ range_of a e ∷ []
    → 1 ≤ n
    → n ≤ 8192 * fuel
    → (push_all s (chunks fuel (next e) n) now).outgoing_nacks.queue
      ≡ range_of a (new (next e + (n - 1))) ∷ []
unfolding chunks push_nack push
push_all-joined zero s a e n now m q l f = absurd (omega arith)
push_all-joined (suc fuel) s a e n now m q l f =
    let some_left : (n == 0) ≡ false = ground arith in
    let longer = λ (x : ℕ).
      ap (λ q. push_into 2 s.outgoing_nacks.max_ranges q (range_of (next e) x)) q
      ∙ push_joined 1 s.outgoing_nacks.max_ranges a e (next e) x m refl in
    elim (Bool-cases (leb n 8192)) [
      | inl t ↦ rw (some_left, t) (longer (new (next e + (n - 1))))
      | inr t ↦
          let (on, same) = more_end (next e) n (ground arith) in
          let x = new (next e + 8191) in
          let rest =
            push_all-joined fuel (push_nack s (range_of (next e) x) now) a x (n - 8192) now m
              (longer x) (ground arith) (ground arith) in
          rw (some_left, t)
            (subst
                (λ y.
                  (push_all (push_nack s (range_of (next e) x) now) (chunks fuel y (n - 8192))
                    now).outgoing_nacks.queue
                  ≡ range_of a (new (y + (n - 8192 - 1))) ∷ [])
                on rest
              ∙ ap (λ y. range_of a y ∷ []) same)
    ]

pushed_index :
    (s : AckFlow) (rs : List SequenceRange) (now : ℕ)
    → ((push_all s rs now).datagram_read_index ≡ s.datagram_read_index)
      × ((push_all s rs now).outgoing_acks ≡ s.outgoing_acks)
unfolding push_nack
pushed_index s [] now = (refl, refl)
pushed_index s (r ∷ rs) now = pushed_index (push_nack s r now) rs now

-- All the ranges of a gap, in an empty queue.
push_all-missing :
    (fuel : ℕ) (s : AckFlow) (a n now : ℕ)
    → IsSeq a
    → 2 ≤ s.outgoing_nacks.max_ranges
    → s.outgoing_nacks.queue ≡ []
    → 1 ≤ n
    → n ≤ 8192 * fuel
    → (push_all s (chunks fuel a n) now).outgoing_nacks.queue ≡ range_of a (new (a + (n - 1))) ∷ []
unfolding chunks push_nack push
push_all-missing zero s a n now h m q l f = absurd (omega arith)
push_all-missing (suc fuel) s a n now h m q l f =
    let some_left : (n == 0) ≡ false = ground arith in
    let only = λ (x : ℕ).
      ap (λ q. push_into 2 s.outgoing_nacks.max_ranges q (range_of a x)) q
      ∙ push_first s.outgoing_nacks.max_ranges a x m h in
    elim (Bool-cases (leb n 8192)) [
      | inl t ↦ rw (some_left, t) (only (new (a + (n - 1))))
      | inr t ↦
          let (on, same) = more_end a n (ground arith) in
          let x = new (a + 8191) in
          let rest =
            push_all-joined fuel (push_nack s (range_of a x) now) a x (n - 8192) now m (only x)
              (ground arith) (ground arith) in
          rw (some_left, t)
            (subst
                (λ y.
                  (push_all (push_nack s (range_of a x) now) (chunks fuel y (n - 8192))
                    now).outgoing_nacks.queue
                  ≡ range_of a (new (y + (n - 8192 - 1))) ∷ [])
                on rest
              ∙ ap (λ y. range_of a y ∷ []) same)
    ]

-- What is known after a datagram that is ahead of the one expected.
pub record AsksFor (s s' : AckFlow) (seq : Sequence24) : Type 0 where
  pub asked : s'.outgoing_nacks.queue ≡ range_of s.datagram_read_index (prev seq) ∷ []
  pub acknowledged : s'.outgoing_acks ≡ push s.outgoing_acks (range_of seq seq)
  pub expects : s'.datagram_read_index ≡ next seq
  pub exact :
      (i : ℕ)
      → IsSeq i
      → Covers (range_of s.datagram_read_index (prev seq)) i
        ↔ (distance_to s.datagram_read_index i < distance_to s.datagram_read_index seq)

gap_end :
    (a b : ℕ)
    → IsSeq a
    → IsSeq b
    → (b == a) ≡ false
    → (1 ≤ distance_to a b) × (new (a + (distance_to a b - 1)) ≡ prev b)
unfolding distance_to new prev
gap_end a b ha hb n = (ground arith, ground arith)

-- While nothing waits to be asked for and the queue may hold two ranges or more, a datagram that is
-- ahead of the one expected leaves exactly one range in the queue of refusals, however long the gap is
-- and also if the numbers wrap. The range holds the numbers from the expected one up to the datagram,
-- and no other. The datagram is pushed to the acknowledgements, and the next one expected is the one
-- after it. The loops end. All numbers are 24-bit numbers.
pub process_datagram_sequence-AsksFor :
    (s : AckFlow) (seq now : ℕ)
    → IsSeq s.datagram_read_index
    → IsSeq seq
    → gt s.datagram_read_index seq ≡ false
    → (seq == s.datagram_read_index) ≡ false
    → 2 ≤ s.outgoing_nacks.max_ranges
    → s.outgoing_nacks.queue ≡ []
    → (s' : AckFlow) × (process_datagram_sequence s seq now ≡ some s') × AsksFor s s' seq
unfolding missing push_ack
process_datagram_sequence-AsksFor s seq now hr hs g n m q =
    let a = s.datagram_read_index in
    let moved = record s { datagram_read_index = next seq } in
    let (near, before) = gap_lem a seq hr hs g in
    let d = before n in
    let (far, end) = gap_end a seq hr hs n in
    let rs = missing a seq in
    let (index, acks) = pushed_index moved rs now in
    (
      push_ack (push_all moved rs now) seq now,
      (process_datagram_sequence_lem s seq now a hr hs hr g).0,
      record {
        asked =
            push_all-missing 1024 moved a (distance_to a seq) now hr m q far (omega (arith, near))
            ∙ ap (λ e. range_of a e ∷ []) end;
        acknowledged = ap (λ q. push q (range_of seq seq)) acks;
        expects = index;
        exact = λ i h. (λ c. omega (arith, d), λ c. omega (arith, d));
      },
    )
