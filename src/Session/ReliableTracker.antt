-- ===== src/Session/ReliableTracker.antt =====
-- src/session/reliable_tracker.rs: which reliable indices have been seen. `seen_ahead` is the deque,
-- front first.
pub mod Agree
pub mod Stale
mod Tests
use raknet_rust.Common.{
  ℕ, suc, ◌+◌, ◌-◌, ◌≤◌, Bool, true, false, ◌||◌, ◌==◌, ltb, leb, if◌then◌else◌, List, [], ◌∷◌,
  ◌++◌, length, get_or, set, replicate,
}
use raknet_rust.Protocol.Sequence24.{Sequence24, next, distance_to}

pub record ReliableTracker : Type 0 where
  pub base : Sequence24
  pub seen_ahead : List Bool
  pub max_window : ℕ

unfoldable pub new : ℕ → ReliableTracker
new max_window = record { base = 0; seen_ahead = []; max_window = max_window }

-- `resize(n, false)` of a deque that is not longer.
unfoldable pub resize : List Bool → ℕ → List Bool
resize xs n = xs ++ replicate (n - length xs) false

-- The loop over the front of the deque.
unfoldable pub advance_base : Sequence24 → List Bool → Sequence24 × List Bool
advance_base base [] = (base, [])
advance_base base (false ∷ ahead) = (base, false ∷ ahead)
advance_base base (true ∷ ahead) = advance_base (next base) ahead

-- An index that is not at the base and lies in the window.
mark : ReliableTracker → ℕ → ReliableTracker × Bool
mark t offset =
    let ahead =
      if leb (length t.seen_ahead) offset then resize t.seen_ahead (offset + 1) else t.seen_ahead in
    if get_or ahead offset false
    then (record t { seen_ahead = ahead }, false)
    else (record t { seen_ahead = set ahead offset true }, true)

at_base : ReliableTracker → ReliableTracker × Bool
at_base t =
    let (base, ahead) = advance_base (next t.base) t.seen_ahead in
    (record t { base = base; seen_ahead = ahead }, true)

unfoldable pub see : ReliableTracker → Sequence24 → ReliableTracker × Bool
unfolding mark at_base
see t ridx =
    let distance = distance_to t.base ridx in
    if ridx == t.base
    then at_base t
    else if distance == 0 || ltb t.max_window distance
    then (t, false)
    else mark t (distance - 1)

unfoldable pub has_seen : ReliableTracker → Sequence24 → Bool
has_seen t ridx =
    let distance = distance_to t.base ridx in
    if ridx == t.base
    then false
    else if distance == 0
    then true
    else if ltb t.max_window distance
    then false
    else get_or t.seen_ahead (distance - 1) false
