-- ===== src/Session/ReliableTracker/Agree.antt =====
-- `see` against `has_seen` inside the window, and the length of the deque.
use raknet_rust.Common.{
  ==_refl, get_or-set, refl, ◌∙◌, ◌<◌, ◌==◌, ltb, leb, if◌then◌else◌, Bool-cases, inl, inr, ℕ, ◌+◌,
  ◌-◌, ◌≤◌, ◌≡◌, Bool, true, false, not, List, [], ◌∷◌, length, get_or-append_replicate,
  length-append, length-replicate, length-set, get_or, replicate, arith,
}
use raknet_rust.Protocol.Sequence24.{IsSeq, next, distance_to}
use raknet_rust.Protocol.Sequence24.Arith.{distance_to_lem}
use raknet_rust.Session.ReliableTracker.{ReliableTracker, mark, resize, advance_base, see, has_seen}

-- Growing the deque changes no entry.
pub get_or-resize : (xs : List Bool) (n i : ℕ) → get_or (resize xs n) i false ≡ get_or xs i false
unfolding resize
get_or-resize xs n i = get_or-append_replicate xs (n - length xs) i false

pub length-resize : (xs : List Bool) (n : ℕ) → length xs ≤ n → length (resize xs n) ≡ n
unfolding resize
length-resize xs n h = omega (
  arith,
  length-append xs (replicate (n - length xs) false),
  length-replicate (n - length xs) false,
)

-- Up to the window `see` accepts an index exactly when `has_seen` does not report it.
pub see-has_seen :
    (t : ReliableTracker) (i : ℕ)
    → IsSeq t.base
    → IsSeq i
    → distance_to t.base i ≤ t.max_window
    → (see t i).1 ≡ not (has_seen t i)
unfolding see has_seen
see-has_seen t i hb hi h = ground (
  arith,
  distance_to_lem t.base i hb hi,
  get_or-resize t.seen_ahead (distance_to t.base i - 1 + 1) (distance_to t.base i - 1),
)

length-advance_base : (b : ℕ) (xs : List Bool) → length (advance_base b xs).1 ≤ length xs
unfolding advance_base
length-advance_base b [] = omega arith
length-advance_base b (false ∷ xs) = omega arith
length-advance_base b (true ∷ xs) = omega (arith, length-advance_base (next b) xs)

-- No call makes the deque longer than the window.
pub length-see :
    (t : ReliableTracker) (i : ℕ)
    → length t.seen_ahead ≤ t.max_window
    → (length (see t i).0.seen_ahead ≤ (see t i).0.max_window)
      × ((see t i).0.max_window ≡ t.max_window)
unfolding see
length-see t i h = (
  ground (
    arith,
    length-advance_base (next t.base) t.seen_ahead,
    length-resize t.seen_ahead (distance_to t.base i - 1 + 1),
    length-set t.seen_ahead (distance_to t.base i - 1) true,
    length-set (resize t.seen_ahead (distance_to t.base i - 1 + 1)) (distance_to t.base i - 1) true,
  ),
  ground arith,
)

apart : (b i : ℕ) → 0 < distance_to b i → (i == b) ≡ false
unfolding distance_to
apart b i h = ground arith

grown : List Bool → ℕ → List Bool
grown xs offset = if leb (length xs) offset then resize xs (offset + 1) else xs

length-grown : (xs : List Bool) (offset : ℕ) → offset < length (grown xs offset)
unfolding grown
length-grown xs offset = ground (arith, length-resize xs (offset + 1))

mark_lem :
    (t : ReliableTracker) (offset : ℕ)
    → (get_or (mark t offset).0.seen_ahead offset false ≡ true)
      × ((mark t offset).0.base ≡ t.base)
      × ((mark t offset).0.max_window ≡ t.max_window)
unfolding mark grown
mark_lem t offset = elim (Bool-cases (get_or (grown t.seen_ahead offset) offset false)) [
  | inl seen ↦ rw seen (seen, refl, refl)
  | inr new ↦
      let put =
        get_or-set (grown t.seen_ahead offset) offset offset true false
          (length-grown t.seen_ahead offset) in
      rw new (put ∙ rw (==_refl offset) refl, refl, refl)
]

-- An index ahead in the window is seen once it has come.
pub has_seen-see :
    (t : ReliableTracker) (i : ℕ)
    → IsSeq t.base
    → IsSeq i
    → 0 < distance_to t.base i
    → distance_to t.base i ≤ t.max_window
    → has_seen (see t i).0 i ≡ true
unfolding see has_seen
has_seen-see t i hb hi ahead near =
    let (put, base, window) = mark_lem t (distance_to t.base i - 1) in
    let other : (i == t.base) ≡ false = apart t.base i ahead in
    let some_way : (distance_to t.base i == 0) ≡ false = ground arith in
    let inside : ltb t.max_window (distance_to t.base i) ≡ false = ground arith in
    rw (other, some_way, inside) (rw (base, window) (rw (other, some_way, inside) put))
