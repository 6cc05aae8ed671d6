-- ===== src/Session/SplitAssembler/Indices.antt =====
-- The ordering indices that go through the assembler.
use raknet_rust.Common.{
  ℕ, ◌+◌, List, length, get_or, set, Option, none, some, Option-cases, inl, inr, Result, ok, err,
  All, if◌then◌else◌, Bool, true, false, not, ◌==◌, leb, ltb, Bool-cases,
}
use raknet_rust.Common.Map.{lookup, insert-All, remove-All, All-lookup}
use raknet_rust.Protocol.Errors.{DecodeError}
use raknet_rust.Protocol.Frame.{Frame, SplitInfo}
use raknet_rust.Session.OrderingChannels.History.{HasIndexSeq, HasSeq}
use raknet_rust.Session.SplitAssembler.Invariant.{prune_entries-All}
use raknet_rust.Session.SplitAssembler.{
  SplitEntry, SplitAssembler, Added, prune, new_entry, assembled, finish, place, add_to, add_known,
  add_part, add_split, add, with_entry,
}

abbrev EntrySeq : ℕ × SplitEntry → Type 0
EntrySeq e = HasIndexSeq e.1.ordering_index

-- The ordering indices of the compounds are sequence numbers.
abbrev pub AreSeqs : SplitAssembler → Type 0
AreSeqs a = All EntrySeq a.entries

abbrev pub FrameSeq : Result DecodeError (Option Frame) → Type 0
FrameSeq (err e) = Unit {0}
FrameSeq (ok none) = Unit {0}
FrameSeq (ok (some f)) = HasSeq f

abbrev pub AddedSeqs : Added → Type 0
AddedSeqs r = AreSeqs r.0 × FrameSeq r.1

held :
    (a : SplitAssembler) (id : ℕ) (e : SplitEntry)
    → AreSeqs a
    → HasIndexSeq e.ordering_index
    → AreSeqs (with_entry a id e)
held a id e s h = insert-All EntrySeq id e a.entries h s

finish-AddedSeqs :
    (a : SplitAssembler) (id : ℕ) (e : SplitEntry) (payload : Option (List ℕ))
    → AreSeqs a
    → HasIndexSeq e.ordering_index
    → AddedSeqs (finish a id e payload)
unfolding finish assembled
finish-AddedSeqs a id e none s h = (held a id e s h, tt)
finish-AddedSeqs a id e (some payload) s h = (remove-All EntrySeq id a.entries s, h)

place-AddedSeqs :
    (a : SplitAssembler) (split : SplitInfo) (e : SplitEntry) (payload : List ℕ) (now : ℕ)
    → AreSeqs a
    → HasIndexSeq e.ordering_index
    → AddedSeqs (place a split e payload now)
unfolding place
place-AddedSeqs a split e payload now s h =
    elim (Bool-cases (e.received + 1 == length (set e.parts split.part_index (some payload)))) [
      | inl t ↦ rw t (finish-AddedSeqs a split.part_id _ _ s h)
      | inr f ↦ rw f (held a split.part_id _ s h, tt)
    ]

add_to-AddedSeqs :
    (a : SplitAssembler) (split : SplitInfo) (e : SplitEntry) (payload : List ℕ) (now : ℕ)
    → AreSeqs a
    → HasIndexSeq e.ordering_index
    → AddedSeqs (add_to a split e payload now)
unfolding add_to
add_to-AddedSeqs a split e payload now s h =
    let kept = held a split.part_id e s h in
    elim (Bool-cases (e.part_count == split.part_count)) [
      | inr f ↦ rw f (kept, tt)
      | inl t ↦ elim (Bool-cases (length e.parts == split.part_count)) [
        | inr f ↦ rw (t, f) (kept, tt)
        | inl u ↦ elim (Bool-cases (leb (length e.parts) split.part_index)) [
          | inl v ↦ rw (t, u, v) (kept, tt)
          | inr v ↦ elim (Option-cases (get_or e.parts split.part_index none)) [
            | inr (x, g) ↦ rw (t, u, v, g) (kept, tt)
            | inl g ↦ rw (t, u, v, g) (place-AddedSeqs a split e payload now s h)
          ]
        ]
      ]
    ]

add_known-AddedSeqs :
    (a : SplitAssembler) (frame : Frame) (split : SplitInfo) (now : ℕ)
    → AreSeqs a
    → HasSeq frame
    → AddedSeqs (add_known a frame split now (lookup split.part_id a.entries))
unfolding add_known
add_known-AddedSeqs a frame split now s h = elim (Option-cases (lookup split.part_id a.entries)) [
  | inl q ↦ elim (Bool-cases (leb a.max_concurrent (length a.entries))) [
    | inl t ↦ rw (q, t) (s, tt)
    | inr f ↦ rw (q, f) (add_to-AddedSeqs a split (new_entry frame split now) frame.payload now s h)
  ]
  | inr (e, q) ↦ rw q (
      add_to-AddedSeqs a split e frame.payload now s
        (All-lookup EntrySeq split.part_id a.entries e s q))
]

add_part-AddedSeqs :
    (a : SplitAssembler) (frame : Frame) (split : SplitInfo) (now : ℕ)
    → AreSeqs a
    → HasSeq frame
    → AddedSeqs (add_part a frame split now)
unfolding add_part
add_part-AddedSeqs a frame split now s h = elim (Bool-cases (split.part_count == 0)) [
  | inl z ↦ rw z (s, tt)
  | inr z ↦ elim (Bool-cases (ltb a.max_parts split.part_count)) [
    | inl m ↦ rw (z, m) (s, tt)
    | inr m ↦ elim (Bool-cases (leb split.part_count split.part_index)) [
      | inl i ↦ rw (z, m, i) (s, tt)
      | inr i ↦ rw (z, m, i) (add_known-AddedSeqs a frame split now s h)
    ]
  ]
]

add_split-AddedSeqs :
    (a : SplitAssembler) (frame : Frame) (now : ℕ) (split : Option SplitInfo)
    → AreSeqs a
    → HasSeq frame
    → AddedSeqs (add_split a frame now split)
unfolding add_split
add_split-AddedSeqs a frame now none s h = (s, tt)
add_split-AddedSeqs a frame now (some split) s h = add_part-AddedSeqs a frame split now s h

-- If the ordering indices of the compounds and of the new frame are sequence numbers, so are those of
-- the compounds afterwards and of the frame that leaves.
pub add-AddedSeqs :
    (a : SplitAssembler) (frame : Frame) (now : ℕ)
    → AreSeqs a
    → HasSeq frame
    → AddedSeqs (add a frame now)
unfolding add prune
add-AddedSeqs a frame now s h = go frame.header.is_split
  where
    go :
        (b : Bool)
        → AddedSeqs (
            if not b then (a, ok (some frame)) else add_split (prune a now).0 frame now frame.split)
    go false = (s, h)
    go true =
        add_split-AddedSeqs (prune a now).0 frame now frame.split
          (prune_entries-All EntrySeq now a.ttl a.entries s) h
