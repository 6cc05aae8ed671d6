-- ===== src/Session/ReliableTracker/Stale.antt =====
-- What the tracker answers after its base has moved.
use raknet_rust.Common.{
  ℕ, suc, ◌+◌, ◌*◌, ◌%◌, ◌≤◌, ◌<◌, ◌≡◌, Bool, true, false, ◌==◌, ==_refl, ltb, List, [], ◌∷◌,
  length, arith,
}
use raknet_rust.Protocol.Sequence24.{IsSeq, modulo, next, distance_to}
use raknet_rust.Session.ReliableTracker.{ReliableTracker, advance_base, see, has_seen, resize}

-- The base moves on by one for each entry that is taken from the deque.
advance_base_lem :
    (b : ℕ) (xs : List Bool)
    → IsSeq b
    → (k : ℕ) × ((advance_base b xs).0 ≡ (b + k) % modulo)
      × (k + length (advance_base b xs).1 ≡ length xs)
unfolding advance_base next
advance_base_lem b [] h = (0, omega arith, omega arith)
advance_base_lem b (false ∷ xs) h = (0, omega arith, omega arith)
advance_base_lem b (true ∷ xs) h =
    let (k, e, l) = advance_base_lem (next b) xs (omega arith) in
    (suc k, omega (arith, e), omega (arith, l))

far_behind :
    (b k w : ℕ) → IsSeq b → k ≤ w → 2 * w + 1 < modulo → w < distance_to (((next b) + k) % modulo) b
unfolding distance_to next
far_behind b k w h hk hw = ground arith

-- An index accepted at the base is not remembered: right after, `has_seen` denies it, whatever else
-- the tracker holds, if its deque is no longer than the window and the window is below 2 ^ 23.
pub accepted_forgotten :
    (t : ReliableTracker)
    → IsSeq t.base
    → length t.seen_ahead ≤ t.max_window
    → 2 * t.max_window + 1 < modulo
    → ((see t t.base).1 ≡ true) × (has_seen (see t t.base).0 t.base ≡ false)
unfolding see has_seen
accepted_forgotten t hb hl hw =
    let (k, e, l) = advance_base_lem (next t.base) t.seen_ahead (unfold next in omega arith) in
    ground (arith, e, l, far_behind t.base k t.max_window hb)

abbrev fresh_at : ℕ → ℕ → ReliableTracker
fresh_at b w = record { base = b; seen_ahead = []; max_window = w }

-- The tracker after it has seen `b + 2` and then its base `b`.
pub after_gap : ℕ → ℕ → ReliableTracker
after_gap b w = (see (see (fresh_at b w) (next (next b))).0 b).0

gap_two : (b : ℕ) → IsSeq b → (distance_to b (next (next b)) ≡ 2) × ((next (next b) == b) ≡ false)
unfolding distance_to next
gap_two b h = (ground arith, ground arith)

gap_first :
    (b w : ℕ)
    → IsSeq b
    → 3 ≤ w
    → see (fresh_at b w) (next (next b))
      ≡ (record { base = b; seen_ahead = false ∷ true ∷ []; max_window = w }, true)
unfolding see resize
gap_first b w h hw =
    let small : ltb w 2 ≡ false = ground arith in rw ((gap_two b h).1, (gap_two b h).0, small)

gap_base :
    (b w : ℕ)
    → IsSeq b
    → 3 ≤ w
    → after_gap b w ≡ record { base = next b; seen_ahead = false ∷ true ∷ []; max_window = w }
unfolding after_gap
gap_base b w h hw = rw (gap_first b w h hw, after_gap) (unfold see advance_base in rw (==_refl b))

gap_distances :
    (b : ℕ)
    → IsSeq b
    → (distance_to (next b) (next (next (next b))) ≡ 2)
      × (distance_to (next b) (next (next b)) ≡ 1)
      × ((next (next (next b)) == next b) ≡ false)
      × ((next (next b) == next b) ≡ false)
unfolding distance_to next
gap_distances b h = (ground arith, ground arith, ground arith, ground arith)

-- The tracker sees `b + 2` and then its base `b`, and nothing else. It then reports `b + 3`, which it
-- never saw, as seen, and `b + 2`, which it saw, as not seen: the marks are not moved with the base.
pub marks_misplaced :
    (b w : ℕ)
    → IsSeq b
    → 3 ≤ w
    → (has_seen (after_gap b w) (next (next (next b))) ≡ true)
      × (has_seen (after_gap b w) (next (next b)) ≡ false)
unfolding has_seen
marks_misplaced b w h hw =
    let small : ltb w 2 ≡ false = ground arith in
    let tiny : ltb w 1 ≡ false = ground arith in
    let (d3, d2, n3, n2) = gap_distances b h in
    (rw (gap_base b w h hw) (rw (n3, d3, small)), rw (gap_base b w h hw) (rw (n2, d2, tiny)))
