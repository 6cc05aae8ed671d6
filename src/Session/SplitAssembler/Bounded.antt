-- ===== src/Session/SplitAssembler/Bounded.antt =====
-- `add` and the assembler's bounds, branch by branch.
use raknet_rust.Common.{
  ℕ, ◌+◌, ◌≤◌, ◌<◌, ◌≡◌, List, length, get_or, set, length-set, Option, none, some, Option-cases,
  inl, inr, arith, ok, if◌then◌else◌, Bool, true, false, not, ◌==◌, leb, ltb, Bool-cases,
}
use raknet_rust.Common.Map.{lookup}
use raknet_rust.Protocol.Frame.{Frame, SplitInfo}
use raknet_rust.Session.SplitAssembler.{
  SplitEntry, SplitAssembler, prune, new_entry, finish, place, add_to, add_known, add_part,
  add_split, add,
}
use raknet_rust.Session.SplitAssembler.Parts.{count_some-set, merge_total}
use raknet_rust.Session.SplitAssembler.Invariant.{
  IsEntry, IsAssembler, HasRoom, prune-IsAssembler, with_entry-IsAssembler,
  without_entry-IsAssembler, new_entry-IsEntry, lookup-IsEntry,
}

place-IsAssembler :
    (a : SplitAssembler) (split : SplitInfo) (e : SplitEntry) (payload : List ℕ) (now : ℕ)
    → IsAssembler a
    → IsEntry a.max_parts (split.part_id, e)
    → HasRoom a split.part_id
    → split.part_index < length e.parts
    → get_or e.parts split.part_index none ≡ none
    → IsAssembler (place a split e payload now).0
unfolding place finish IsEntry
place-IsAssembler a split e payload now s (l, r, b, m) room i g =
    let n = count_some-set e.parts split.part_index payload i g in
    let k = length-set e.parts split.part_index (some payload) in
    elim (Bool-cases (e.received + 1 == length (set e.parts split.part_index (some payload)))) [
      | inl t ↦
          let (bytes, q) =
            merge_total (set e.parts split.part_index (some payload)) (ground (arith, n, r)) in
          rw (t, q) (without_entry-IsAssembler a split.part_id s)
      | inr f ↦ rw f (
          with_entry-IsAssembler a split.part_id
            (record e {
              received = e.received + 1;
              parts = set e.parts split.part_index (some payload);
              last_update = now;
            })
            s (ground (arith, k), ground (arith, n), ground (arith, k, f), m) room)
    ]

add_to-IsAssembler :
    (a : SplitAssembler) (split : SplitInfo) (e : SplitEntry) (payload : List ℕ) (now : ℕ)
    → IsAssembler a
    → IsEntry a.max_parts (split.part_id, e)
    → HasRoom a split.part_id
    → IsAssembler (add_to a split e payload now).0
unfolding add_to
add_to-IsAssembler a split e payload now s p room =
    let held = with_entry-IsAssembler a split.part_id e s p room in
    elim (Bool-cases (e.part_count == split.part_count)) [
      | inr f ↦ rw f held
      | inl t ↦ elim (Bool-cases (length e.parts == split.part_count)) [
        | inr f ↦ rw (t, f) held
        | inl u ↦ elim (Bool-cases (leb (length e.parts) split.part_index)) [
          | inl v ↦ rw (t, u, v) held
          | inr v ↦ elim (Option-cases (get_or e.parts split.part_index none)) [
            | inr (x, g) ↦ rw (t, u, v, g) held
            | inl g ↦
                rw (t, u, v, g)
                  (place-IsAssembler a split e payload now s p room (ground (arith, v)) g)
          ]
        ]
      ]
    ]

add_known-IsAssembler :
    (a : SplitAssembler) (frame : Frame) (split : SplitInfo) (now : ℕ)
    → IsAssembler a
    → 0 < split.part_count
    → split.part_count ≤ a.max_parts
    → IsAssembler (add_known a frame split now (lookup split.part_id a.entries)).0
unfolding add_known
add_known-IsAssembler a frame split now s h m =
    elim (Option-cases (lookup split.part_id a.entries)) [
      | inl q ↦ elim (Bool-cases (leb a.max_concurrent (length a.entries))) [
        | inl t ↦ rw (q, t) s
        | inr f ↦
            rw (q, f)
              (add_to-IsAssembler a split (new_entry frame split now) frame.payload now s
                (new_entry-IsEntry frame split now a.max_parts h m) (inr (ground (arith, f))))
      ]
      | inr (e, q) ↦ rw q (
          add_to-IsAssembler a split e frame.payload now s (lookup-IsEntry a split.part_id e q s)
            (inl (e, q)))
    ]

add_part-IsAssembler :
    (a : SplitAssembler) (frame : Frame) (split : SplitInfo) (now : ℕ)
    → IsAssembler a
    → IsAssembler (add_part a frame split now).0
unfolding add_part
add_part-IsAssembler a frame split now p = elim (Bool-cases (split.part_count == 0)) [
  | inl z ↦ rw z p
  | inr z ↦ elim (Bool-cases (ltb a.max_parts split.part_count)) [
    | inl m ↦ rw (z, m) p
    | inr m ↦ elim (Bool-cases (leb split.part_count split.part_index)) [
      | inl i ↦ rw (z, m, i) p
      | inr i ↦
          rw (z, m, i)
            (add_known-IsAssembler a frame split now p (ground (arith, z)) (ground (arith, m)))
    ]
  ]
]

add_split-IsAssembler :
    (a : SplitAssembler) (frame : Frame) (now : ℕ) (split : Option SplitInfo)
    → IsAssembler a
    → IsAssembler (add_split a frame now split).0
unfolding add_split
add_split-IsAssembler a frame now none s = s
add_split-IsAssembler a frame now (some split) s = add_part-IsAssembler a frame split now s

-- Whatever frame comes, the assembler keeps its bounds: no more compounds than `max_concurrent`, none
-- of more than `max_parts` parts, and each waits for at least one part.
pub add-IsAssembler :
    (a : SplitAssembler) (frame : Frame) (now : ℕ) → IsAssembler a → IsAssembler (add a frame now).0
unfolding add
add-IsAssembler a frame now s = go frame.header.is_split
  where
    go :
        (b : Bool)
        → IsAssembler
            (if not b
              then (a, ok (some frame))
              else add_split (prune a now).0 frame now frame.split).0
    go false = s
    go true =
        add_split-IsAssembler (prune a now).0 frame now frame.split (prune-IsAssembler a now s)
