-- ===== src/Protocol/Ack/Cover.antt =====
-- The sequence numbers of a range, and the halves of a range that wraps.
use raknet_rust.Common.{ℕ, ◌≤◌, ◌≡◌, ◌↔◌, ◌⊎◌, List, [], ◌∷◌, none, some, false, arith}
use raknet_rust.Protocol.Sequence24.{Sequence24, IsSeq, distance_to, new}
use raknet_rust.Protocol.Ack.{SequenceRange, IsRange, wraps, split_wrapping}

-- Walking from the start, the number is met before the end is passed.
abbrev pub Covers : SequenceRange → Sequence24 → Type 0
Covers r s = distance_to r.start s ≤ distance_to r.start r.end

-- The ranges that go on the wire for one range.
unfoldable pub pieces : SequenceRange → List SequenceRange
unfolding split_wrapping
pieces r = elim (split_wrapping r) [ some (a, b) ↦ a ∷ b ∷ [] | none ↦ r ∷ [] ]

-- A range that wraps around 2 ^ 24 is cut into two that do not, and a sequence number lies in the
-- range exactly when it lies in one of the two.
pub split_wrapping-Covers :
    (r a b : SequenceRange) (s : ℕ)
    → IsRange r
    → IsSeq s
    → split_wrapping r ≡ some (a, b)
    → (wraps a ≡ false) × (wraps b ≡ false) × (Covers r s ↔ (Covers a s ⊎ Covers b s))
unfolding split_wrapping distance_to new
split_wrapping-Covers r a b s hr hs e =
    (ground arith, ground arith, (λ h. ground arith, λ h. ground arith))

-- A range that does not wrap holds the numbers between its ends, and is not cut.
pub Covers-flat :
    (r : SequenceRange) (s : ℕ)
    → IsRange r
    → IsSeq s
    → wraps r ≡ false
    → (split_wrapping r ≡ none) × (Covers r s ↔ ((r.start ≤ s) × (s ≤ r.end)))
unfolding split_wrapping distance_to
Covers-flat r s hr hs e = (ground arith, (λ h. (ground arith, ground arith), λ h. ground arith))
