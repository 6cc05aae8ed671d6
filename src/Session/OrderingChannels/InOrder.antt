-- ===== src/Session/OrderingChannels/InOrder.antt =====
-- The order in which one channel hands frames over.
use raknet_rust.Common.{
  ℕ, zero, suc, ◌+◌, ◌≤◌, ◌≡◌, refl, sym, ◌∙◌, ap, subst, inl, inr, false, ◌==◌, leb, ltb, List, [],
  ◌∷◌, length, All, none, some, Option-cases, Bool-cases, arith,
}
use raknet_rust.Common.Map.{
  lookup, remove, Above, remove-Above, insert-Above, length-remove, length-insert, insert-All,
  remove-All, All-lookup,
}
use raknet_rust.Protocol.Sequence24.{Sequence24, IsSeq, next, distance_to, value}
use raknet_rust.Protocol.Sequence24.Arith.{value_lem, next-IsSeq, distance_to_lem}
use raknet_rust.Protocol.Frame.{Frame}
use raknet_rust.Session.OrderingChannels.{
  ChannelState, OrderedResult, ready, buffered, dropped_stale, dropped_buffer_full, release,
  release_all, or_insert, order_in,
}

-- The frames have the indices from `e` on, one after the other, up to but not including `e'`.
abbrev pub Consecutive : Sequence24 → List Frame → Sequence24 → Type 0
Consecutive e [] e' = e ≡ e'
Consecutive e (f ∷ fs) e' = (f.ordering_index ≡ some e) × Consecutive (next e) fs e'

abbrev pub Waiting : ℕ × Frame → Type 0
Waiting p = (p.1.ordering_index ≡ some p.0) × IsSeq p.0

-- A channel keeps each waiting frame under its own index, once, and no more than its limit.
pub record IsChannel (max_pending : ℕ) (s : ChannelState) : Type 0 where
  pub expected : IsSeq s.expected_order
  pub sorted : Above 0 s.pending_ordered
  pub waiting : All Waiting s.pending_ordered
  pub bounded : length s.pending_ordered ≤ max_pending

pub record Released (e : Sequence24) (pending : List (ℕ × Frame)) (e' : Sequence24)
    (fs : List Frame) (rest : List (ℕ × Frame)) : Type 0 where
  pub in_order : Consecutive e fs e'
  pub done : lookup (value e') rest ≡ none
  pub seq : IsSeq e'
  pub sorted : Above 0 rest
  pub waiting : All Waiting rest
  pub count : length rest + length fs ≡ length pending

-- With a round for each waiting frame the loop ends because the next frame is not there.
release_lem :
    (fuel : ℕ) (e : ℕ) (pending : List (ℕ × Frame))
    → IsSeq e
    → Above 0 pending
    → All Waiting pending
    → length pending ≤ fuel
    → Released e pending
        (release fuel e pending).0
        (release fuel e pending).1
        (release fuel e pending).2
unfolding release
release_lem zero e [] h s w l = record {
  in_order = refl;
  done = unfold lookup in refl;
  seq = h;
  sorted = tt;
  waiting = tt;
  count = omega arith;
}
release_lem zero e (p ∷ ps) h s w l = absurd (omega arith)
release_lem (suc fuel) e pending h s w l = elim (Option-cases (lookup (value e) pending)) [
  | inl miss ↦
      rw (miss, release)
        (record {
          in_order = refl;
          done = miss;
          seq = h;
          sorted = s;
          waiting = w;
          count = omega arith;
        })
  | inr (f, hit) ↦
      let shorter = length-remove (value e) pending f hit in
      let ih =
        release_lem fuel (next e) (remove (value e) pending) (next-IsSeq e)
          (remove-Above 0 (value e) pending s) (remove-All Waiting (value e) pending w)
          (omega arith) in
      let mine = All-lookup Waiting (value e) pending f w hit in
      rw (hit, release)
        (record {
          in_order = (mine.0 ∙ ap some (value_lem h), ih.in_order);
          done = ih.done;
          seq = ih.seq;
          sorted = ih.sorted;
          waiting = ih.waiting;
          count = omega (arith, ih.count);
        })
]

abbrev pub delivered : OrderedResult → List Frame
delivered (ready fs) = fs
delivered buffered = []
delivered dropped_stale = []
delivered dropped_buffer_full = []

or_insert-sorted :
    (k : ℕ) (f : Frame) (m : List (ℕ × Frame)) → Above 0 m → Above 0 (or_insert k f m)
unfolding or_insert
or_insert-sorted k f m s = elim (Option-cases (lookup k m)) [
  | inl e ↦ rw (e, or_insert) (insert-Above 0 k f m (omega arith) s)
  | inr (g, e) ↦ rw (e, or_insert) s
]

or_insert-waits :
    (k : ℕ) (f : Frame) (m : List (ℕ × Frame))
    → Waiting (k, f)
    → All Waiting m
    → All Waiting (or_insert k f m)
unfolding or_insert
or_insert-waits k f m p w = elim (Option-cases (lookup k m)) [
  | inl e ↦ rw (e, or_insert) (insert-All Waiting k f m p w)
  | inr (g, e) ↦ rw (e, or_insert) w
]

length-or_insert :
    (k : ℕ) (f : Frame) (m : List (ℕ × Frame)) → length (or_insert k f m) ≤ suc (length m)
unfolding or_insert
length-or_insert k f m = elim (Option-cases (lookup k m)) [
  | inl e ↦ rw (e, or_insert) (length-insert k f m)
  | inr (g, e) ↦ rw (e, or_insert) (omega arith)
]

abbrev Kept : ℕ → ChannelState → ChannelState × OrderedResult → Type 0
Kept max_pending s r =
    IsChannel max_pending r.0 × Consecutive s.expected_order (delivered r.1) r.0.expected_order

release_all-Kept :
    (max_pending : ℕ) (s : ChannelState) (frame : Frame)
    → IsChannel max_pending s
    → frame.ordering_index ≡ some s.expected_order
    → Kept max_pending s (release_all s frame)
unfolding release_all
release_all-Kept max_pending s frame v e =
    let r =
      release_lem (length s.pending_ordered) (next s.expected_order) s.pending_ordered
        (next-IsSeq s.expected_order) v.sorted v.waiting (omega arith) in
    (
      record {
        expected = r.seq;
        sorted = r.sorted;
        waiting = r.waiting;
        bounded = omega (arith, r.count, v.bounded);
      },
      (e, r.in_order),
    )

-- A frame handled on a channel keeps the channel well formed, and what is handed over are the frames
-- from the expected index up to the new expected index.
pub order_in-Kept :
    (max_gap max_pending : ℕ) (s : ChannelState) (i : ℕ) (frame : Frame)
    → IsChannel max_pending s
    → IsSeq i
    → frame.ordering_index ≡ some i
    → Kept max_pending s (order_in max_gap max_pending s i frame)
unfolding order_in
order_in-Kept max_gap max_pending s i frame v h e =
    elim (Bool-cases (distance_to s.expected_order i == 0)) [
      | inl here ↦
          let same : s.expected_order ≡ i =
            (distance_to_lem s.expected_order i v.expected h).2 (ground arith) in
          rw here (release_all-Kept max_pending s frame v (e ∙ ap some (sym same)))
      | inr ahead ↦ elim (Bool-cases (ltb max_gap (distance_to s.expected_order i))) [
        | inl stale ↦ rw (ahead, stale) (v, refl)
        | inr near ↦ elim (Bool-cases (leb max_pending (length s.pending_ordered))) [
          | inl full ↦ rw (ahead, near, full) (v, refl)
          | inr room ↦ rw (ahead, near, room) (buffers room, refl)
        ]
      ]
    ]
  where
    buffers :
        leb max_pending (length s.pending_ordered) ≡ false
        → IsChannel max_pending
            (record s { pending_ordered = or_insert (value i) frame s.pending_ordered })
    buffers room = record {
      expected = v.expected;
      sorted = or_insert-sorted (value i) frame s.pending_ordered v.sorted;
      waiting =
          or_insert-waits (value i) frame s.pending_ordered
            (e ∙ ap some (sym (value_lem h)), subst IsSeq (sym (value_lem h)) h) v.waiting;
      bounded = ground (arith, length-or_insert (value i) frame s.pending_ordered);
    }
