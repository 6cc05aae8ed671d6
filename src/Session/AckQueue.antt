-- ===== src/Session/AckQueue.antt =====
-- src/session/ack_queue.rs: the ranges of sequence numbers that wait to be acknowledged.
pub mod Bounds
use raknet_rust.Common.{
  ℕ, zero, suc, ◌+◌, Bool, true, false, not, ◌&&◌, ◌==◌, ltb, leb, if◌then◌else◌, List, [], ◌∷◌,
  ◌++◌, length, Option, none, some,
}
use raknet_rust.Protocol.Sequence24.{Sequence24, next, ge, min_seq, max_seq}
use raknet_rust.Protocol.Ack.{SequenceRange, range_of, split_wrapping, encoded_size}

pub record AckQueue : Type 0 where
  pub max_ranges : ℕ
  pub queue : List SequenceRange

unfoldable pub new_queue : ℕ → AckQueue
new_queue max_ranges = record { max_ranges = max_ranges; queue = [] }

-- The last range with the new one joined to it: if the new one begins right behind it, or if the two
-- overlap.
unfoldable pub join : SequenceRange → SequenceRange → Option SequenceRange
join last range =
    if next last.end == range.start
    then some (range_of last.start range.end)
    else if ge last.end range.start && ge range.end last.start
    then some (range_of (min_seq last.start range.start) (max_seq last.end range.end))
    else none

-- The queue with its last range joined, `none` if that cannot be.
join_back : List SequenceRange → SequenceRange → Option (List SequenceRange)
join_back [] range = none
join_back (last ∷ []) range = elim (join last range) [ some r ↦ some (r ∷ []) | none ↦ none ]
join_back (r ∷ s ∷ rs) range = elim (join_back (s ∷ rs) range) [
  | some q ↦ some (r ∷ q)
  | none ↦ none
]

-- `push` on a queue of at most `max` ranges. It calls itself on the halves of a range that wraps;
-- `push` gives it two rounds.
unfoldable pub push_into : ℕ → ℕ → List SequenceRange → SequenceRange → List SequenceRange
unfolding join_back
push_into zero max queue range = queue
push_into (suc fuel) max queue range =
    if leb max (length queue) then queue else elim (join_back queue range) [
      | some joined ↦ joined
      | none ↦ elim (split_wrapping range) [
        | some (left, right) ↦ push_into fuel max (push_into fuel max queue left) right
        | none ↦ queue ++ (range ∷ [])
      ]
    ]

unfoldable pub push : AckQueue → SequenceRange → AckQueue
push q range = record q { queue = push_into 2 q.max_ranges q.queue range }

-- The bytes that a range takes in a payload.
unfoldable pub wire_size : SequenceRange → ℕ
wire_size r = elim (split_wrapping r) [
  | some (left, right) ↦ encoded_size left + encoded_size right
  | none ↦ encoded_size r
]

-- The loop of `pop_for_mtu`: `count` ranges, `used` bytes so far. What is popped, and what stays.
unfoldable pub pop_loop :
    ℕ → ℕ → ℕ → ℕ → List SequenceRange → List SequenceRange × List SequenceRange
pop_loop mtu max_ranges used count [] = ([], [])
pop_loop mtu max_ranges used count (front ∷ queue) =
    let size = wire_size front in
    let (out, rest) = pop_loop mtu max_ranges (used + size) (count + 1) queue in
    if leb max_ranges count
    then ([], front ∷ queue)
    else if not (count == 0) && ltb mtu (used + size)
    then ([], front ∷ queue)
    else (front ∷ out, rest)

unfoldable pub pop_for_mtu : AckQueue → ℕ → ℕ → ℕ → AckQueue × List SequenceRange
pop_for_mtu q mtu base_overhead max_ranges =
    let (out, rest) = pop_loop mtu max_ranges base_overhead 0 q.queue in
    if max_ranges == 0 then (q, []) else (record q { queue = rest }, out)
