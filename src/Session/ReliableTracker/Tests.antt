-- ===== src/Session/ReliableTracker/Tests.antt =====
-- The theorems on the tracker at concrete trackers.
use raknet_rust.Common.{◌≡◌, true, false, [], ◌∷◌, arith}
use raknet_rust.Protocol.Sequence24.{next}
use raknet_rust.Session.ReliableTracker.{ReliableTracker, see, has_seen}
use raknet_rust.Session.ReliableTracker.Stale.{after_gap, accepted_forgotten, marks_misplaced}

-- The base is 5, and 7 was seen.
abbrev tracker : ReliableTracker
tracker = record { base = 5; seen_ahead = false ∷ true ∷ []; max_window = 16 }

accepted_forgotten_five : ((see tracker 5).1 ≡ true) × (has_seen (see tracker 5).0 5 ≡ false)
accepted_forgotten_five = accepted_forgotten tracker (omega arith) (omega arith) (omega arith)

marks_misplaced_zero :
    (has_seen (after_gap 0 16) (next (next (next 0))) ≡ true)
    × (has_seen (after_gap 0 16) (next (next 0)) ≡ false)
marks_misplaced_zero = marks_misplaced 0 16 (omega arith) (omega arith)
