-- ===== src/Session/SplitAssembler/Reassembly.antt =====
-- What each part of one payload does to its compound.
use raknet_rust.Common.{
  ℕ, suc, ◌+◌, ◌≤◌, ◌<◌, ◌≡◌, refl, sym, ◌∙◌, ap, subst, ◌⊎◌, List, length, get_or, get_elem?, set,
  length-set, replicate, none, some, Option-cases, inl, inr, arith, ok, if◌then◌else◌, Bool, true,
  false, not, ◌==◌, leb, ltb, Bool-cases,
}
use raknet_rust.Common.Map.{lookup, Above, lookup-insert, lookup-remove}
use raknet_rust.Protocol.Frame.{Frame, SplitInfo}
use raknet_rust.Session.SplitAssembler.{
  SplitEntry, SplitAssembler, prune, new_entry, assembled, Added, with_entry, finish, place, add_to,
  add_known, add_part, add_split, add,
}
use raknet_rust.Session.SplitAssembler.Parts.{
  count_some, count_some-set, merge_total, merge-Partial, Partial, Partial-set, Partial-replicate,
  length-Partial, concat,
}
use raknet_rust.Session.SplitAssembler.Invariant.{
  IsEntry, IsAssembler, new_entry-IsEntry, lookup-IsEntry, prune-IsAssembler,
}

-- The payload is complete, and its compound is gone.
pub Completes : List (List ℕ) → ℕ → Added → Type 0
Completes chunks id (a, result) =
    (frame : Frame) × (result ≡ ok (some frame))
    × (frame.payload ≡ concat chunks)
    × (lookup id a.entries ≡ none)

-- The payload waits for parts, of which `n` have come.
pub Waits : List (List ℕ) → ℕ → ℕ → Added → Type 0
Waits chunks id n (a, result) =
    (result ≡ ok none)
    × (e : SplitEntry) × (lookup id a.entries ≡ some e)
    × Partial chunks e.parts
    × (count_some e.parts ≡ n)

-- One part more has come.
abbrev pub Progress : List (List ℕ) → ℕ → ℕ → Added → Type 0
Progress chunks id n added =
    (Completes chunks id added × (n ≡ length chunks))
    ⊎ (Waits chunks id n added × (n < length chunks))

lookup-with_entry :
    (a : SplitAssembler) (id : ℕ) (e : SplitEntry) → lookup id (with_entry a id e).entries ≡ some e
lookup-with_entry a id e = ground (arith, lookup-insert id id e a.entries)

place-Progress :
    (a : SplitAssembler) (split : SplitInfo) (e : SplitEntry) (payload : List ℕ) (now : ℕ)
    (chunks : List (List ℕ))
    → Above 0 a.entries
    → IsEntry a.max_parts (split.part_id, e)
    → Partial chunks e.parts
    → get_elem? chunks split.part_index ≡ some payload
    → split.part_index < length e.parts
    → get_or e.parts split.part_index none ≡ none
    → Progress chunks split.part_id (suc (count_some e.parts)) (place a split e payload now)
unfolding place finish IsEntry Completes Waits assembled
place-Progress a split e payload now chunks s (l, r, b, m) p g i z =
    let parts = set e.parts split.part_index (some payload) in
    let n = count_some-set e.parts split.part_index payload i z in
    let k = length-set e.parts split.part_index (some payload) in
    let q = Partial-set chunks e.parts split.part_index payload p g in
    let c = length-Partial chunks e.parts p in
    elim (Bool-cases (e.received + 1 == length parts)) [
      | inl t ↦
          let (bytes, w) = merge_total parts (ground (arith, n, r)) in
          rw (t, w)
            (inl (
              (
                assembled e bytes,
                refl,
                merge-Partial chunks parts bytes q w,
                ground (arith, lookup-remove 0 split.part_id split.part_id a.entries s),
              ),
              ground (arith, k, c, r),
            ))
      | inr f ↦ rw f (
          inr (
            (
              refl,
              record e { received = e.received + 1; parts = parts; last_update = now },
              lookup-with_entry a split.part_id _,
              q,
              n,
            ),
            ground (arith, f, k, c, r),
          ))
    ]

-- What a part does to a compound that holds `n` of the parts: one that is there already is ignored.
abbrev pub Advances : List (List ℕ) → ℕ → SplitEntry → ℕ → Added → Type 0
Advances chunks id e index added =
    ((get_or e.parts index none ≡ none) × Progress chunks id (suc (count_some e.parts)) added)
    ⊎ Waits chunks id (count_some e.parts) added

add_to-Advances :
    (a : SplitAssembler) (split : SplitInfo) (e : SplitEntry) (payload : List ℕ) (now : ℕ)
    (chunks : List (List ℕ))
    → Above 0 a.entries
    → IsEntry a.max_parts (split.part_id, e)
    → Partial chunks e.parts
    → split.part_count ≡ length chunks
    → get_elem? chunks split.part_index ≡ some payload
    → split.part_index < split.part_count
    → Advances chunks split.part_id e split.part_index (add_to a split e payload now)
unfolding add_to IsEntry Waits
add_to-Advances a split e payload now chunks s (l, r, b, m) p c g i =
    let k = length-Partial chunks e.parts p in
    let t : (e.part_count == split.part_count) ≡ true = ground (arith, l, k, c) in
    let u : (length e.parts == split.part_count) ≡ true = ground (arith, k, c) in
    let v : leb (length e.parts) split.part_index ≡ false = ground (arith, k, c, i) in
    elim (Option-cases (get_or e.parts split.part_index none)) [
      | inl z ↦
          rw (t, u, v, z)
            (inl (
              refl,
              place-Progress a split e payload now chunks s (l, r, b, m) p g
                  (ground (arith, k, c, i)) z,
            ))
      | inr (x, z) ↦ rw (t, u, v, z) (inr (refl, e, lookup-with_entry a split.part_id e, p, refl))
    ]

-- The entry `e` that a part belongs to: the one that is kept for the payload, or a new one if there
-- is room.
unfoldable pub Holds : SplitAssembler → Frame → SplitInfo → ℕ → List (List ℕ) → SplitEntry → Type 0
Holds a frame split now chunks e =
    ((lookup split.part_id a.entries ≡ some e) × Partial chunks e.parts)
    ⊎ ((lookup split.part_id a.entries ≡ none)
        × (length a.entries < a.max_concurrent)
        × (e ≡ new_entry frame split now))

add_known-Advances :
    (a : SplitAssembler) (frame : Frame) (split : SplitInfo) (now : ℕ) (chunks : List (List ℕ))
    (e : SplitEntry)
    → IsAssembler a
    → Holds a frame split now chunks e
    → split.part_count ≡ length chunks
    → get_elem? chunks split.part_index ≡ some frame.payload
    → split.part_index < split.part_count
    → split.part_count ≤ a.max_parts
    → Advances chunks split.part_id e split.part_index
        (add_known a frame split now (lookup split.part_id a.entries))
unfolding add_known Holds IsAssembler
add_known-Advances a frame split now chunks e s (inl (q, p)) c g i m = rw q (
    add_to-Advances a split e frame.payload now chunks s.0 (lookup-IsEntry a split.part_id e q s) p
      c g i)
add_known-Advances a frame split now chunks e s (inr (q, room, t)) c g i m =
    let f : leb a.max_concurrent (length a.entries) ≡ false = ground (arith, room) in
    let p : Partial chunks (replicate split.part_count none) = rw c (Partial-replicate chunks) in
    rw (t, q, f)
      (add_to-Advances a split (new_entry frame split now) frame.payload now chunks s.0
        (new_entry-IsEntry frame split now a.max_parts (omega arith) m) p c g i)

opens :
    (a : SplitAssembler) (frame : Frame) (split : SplitInfo) (now : ℕ)
    → frame.split ≡ some split
    → (split.part_count == 0) ≡ false
    → ltb a.max_parts split.part_count ≡ false
    → leb split.part_count split.part_index ≡ false
    → add_split a frame now frame.split
      ≡ add_known a frame split now (lookup split.part_id a.entries)
unfolding add_split add_part
opens a frame split now w z y x = ap (add_split a frame now) w ∙ rw (z, y, x) refl

-- A payload was cut in `chunks`, no more than `max_parts`, and a frame carries one of them in its
-- place. If there is room, or a compound of the same payload that is not out of date, the frame is
-- never refused: either it is the last part, and a frame with the whole payload leaves and the
-- compound with it, or the compound keeps the part and has one part more, or the part was there and
-- nothing is counted twice.
pub add-Advances :
    (a : SplitAssembler) (frame : Frame) (split : SplitInfo) (now : ℕ) (chunks : List (List ℕ))
    (e : SplitEntry)
    → IsAssembler a
    → frame.header.is_split ≡ true
    → frame.split ≡ some split
    → Holds (prune a now).0 frame split now chunks e
    → split.part_count ≡ length chunks
    → get_elem? chunks split.part_index ≡ some frame.payload
    → split.part_index < split.part_count
    → split.part_count ≤ (prune a now).0.max_parts
    → Advances chunks split.part_id e split.part_index (add a frame now)
unfolding add add_split add_part
add-Advances a frame split now chunks e s h w k c g i m =
    let r =
      add_known-Advances (prune a now).0 frame split now chunks e (prune-IsAssembler a now s) k c g
        i m in
    let z : (split.part_count == 0) ≡ false = ground (arith, i) in
    let y : ltb (prune a now).0.max_parts split.part_count ≡ false = ground (arith, m) in
    let x : leb split.part_count split.part_index ≡ false = ground (arith, i) in
    let o = opens (prune a now).0 frame split now w z y x in
    go frame.header.is_split h (subst (Advances chunks split.part_id e split.part_index) (sym o) r)
  where
    go :
        (b : Bool)
        → b ≡ true
        → Advances chunks split.part_id e split.part_index
            (add_split (prune a now).0 frame now frame.split)
        → Advances chunks split.part_id e split.part_index (
            if not b then (a, ok (some frame)) else add_split (prune a now).0 frame now frame.split)
    go false q r = cc
    go true q r = r
