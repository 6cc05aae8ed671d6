-- ===== src/Session/SplitAssembler/Invariant.antt =====
-- The assembler's bounds: how many compounds it holds, and how many parts each has.
use raknet_rust.Common.{
  ℕ, suc, ◌+◌, ◌≤◌, ◌<◌, ◌≡◌, refl, sym, ap, List, [], ◌∷◌, length, length-append, length-replicate,
  ◌-◌, ◌⊎◌, Option, none, some, inl, inr, arith, leb, Bool-cases, All,
}
use raknet_rust.Common.Map.{
  lookup, Above, Above-mono, insert-Above, remove-Above, insert-All, remove-All, All-lookup,
  length-insert, length-insert_known, length-remove-le,
}
use raknet_rust.Protocol.Frame.{Frame, SplitInfo}
use raknet_rust.Session.SplitAssembler.{
  SplitEntry, SplitAssembler, new, prune_entries, prune, new_entry, with_entry, without_entry,
  present_parts, drain_entries, drain_buffered_parts,
}
use raknet_rust.Session.SplitAssembler.Parts.{count_some, count_some-replicate}

-- A compound waits for at least one part.
unfoldable pub IsEntry : ℕ → ℕ × SplitEntry → Type 0
IsEntry max_parts (id, e) =
    (length e.parts ≡ e.part_count)
    × (e.received ≡ count_some e.parts)
    × (e.received < e.part_count)
    × (e.part_count ≤ max_parts)

unfoldable pub IsAssembler : SplitAssembler → Type 0
unfolding IsEntry
IsAssembler a =
    Above 0 a.entries × All (IsEntry a.max_parts) a.entries × (length a.entries ≤ a.max_concurrent)

pub new-IsAssembler :
    (ttl max_parts max_concurrent : ℕ) → IsAssembler (new ttl max_parts max_concurrent)
unfolding new IsAssembler
new-IsAssembler ttl p c = (tt, tt, ground arith)

pub prune_entries-Above :
    (now ttl n : ℕ) (m : List (ℕ × SplitEntry)) → Above n m → Above n (prune_entries now ttl m).0
unfolding prune_entries
prune_entries-Above now ttl n [] h = tt
prune_entries-Above now ttl n ((id, e) ∷ m) h =
    let r = prune_entries-Above now ttl (suc id) m h.1 in
    ground (arith, r, Above-mono n (suc id) (prune_entries now ttl m).0)

pub prune_entries-All :
    (P : ℕ × SplitEntry → Type 0) (now ttl : ℕ) (m : List (ℕ × SplitEntry))
    → All P m
    → All P (prune_entries now ttl m).0
unfolding prune_entries
prune_entries-All P now ttl [] h = tt
prune_entries-All P now ttl ((id, e) ∷ m) h = elim (Bool-cases (leb ttl (now - e.last_update))) [
  | inl t ↦ rw t (prune_entries-All P now ttl m h.1)
  | inr f ↦ rw f (h.0, prune_entries-All P now ttl m h.1)
]

pub length-prune_entries :
    (now ttl : ℕ) (m : List (ℕ × SplitEntry))
    → length (prune_entries now ttl m).0 + (prune_entries now ttl m).1 ≡ length m
unfolding prune_entries
length-prune_entries now ttl [] = refl
length-prune_entries now ttl ((id, e) ∷ m) = ground (arith, length-prune_entries now ttl m)

pub prune-IsAssembler : (a : SplitAssembler) (now : ℕ) → IsAssembler a → IsAssembler (prune a now).0
unfolding prune IsAssembler
prune-IsAssembler a now (s, h, l) = (
  prune_entries-Above now a.ttl 0 a.entries s,
  prune_entries-All (IsEntry a.max_parts) now a.ttl a.entries h,
  omega (arith, length-prune_entries now a.ttl a.entries),
)

-- There is an entry with this id, or a place for one.
abbrev pub HasRoom : SplitAssembler → ℕ → Type 0
HasRoom a id =
    ((w : SplitEntry) × (lookup id a.entries ≡ some w)) ⊎ (length a.entries < a.max_concurrent)

pub with_entry-IsAssembler :
    (a : SplitAssembler) (id : ℕ) (e : SplitEntry)
    → IsAssembler a
    → IsEntry a.max_parts (id, e)
    → HasRoom a id
    → IsAssembler (with_entry a id e)
unfolding IsAssembler
with_entry-IsAssembler a id e (s, h, l) p room = (
  insert-Above 0 id e a.entries (omega arith) s,
  insert-All (IsEntry a.max_parts) id e a.entries p h,
  elim room [
    | inl (w, q) ↦ omega (arith, length-insert_known 0 id e w a.entries s q)
    | inr f ↦ omega (arith, length-insert id e a.entries)
  ],
)

pub without_entry-IsAssembler :
    (a : SplitAssembler) (id : ℕ) → IsAssembler a → IsAssembler (without_entry a id)
unfolding IsAssembler
without_entry-IsAssembler a id (s, h, l) = (
  remove-Above 0 id a.entries s,
  remove-All (IsEntry a.max_parts) id a.entries h,
  omega (arith, length-remove-le id a.entries),
)

pub new_entry-IsEntry :
    (frame : Frame) (split : SplitInfo) (now max_parts : ℕ)
    → 0 < split.part_count
    → split.part_count ≤ max_parts
    → IsEntry max_parts (split.part_id, new_entry frame split now)
unfolding IsEntry
new_entry-IsEntry frame split now max_parts h m =
    (length-replicate split.part_count none, sym (count_some-replicate split.part_count), h, m)

pub lookup-IsEntry :
    (a : SplitAssembler) (id : ℕ) (e : SplitEntry)
    → lookup id a.entries ≡ some e
    → IsAssembler a
    → IsEntry a.max_parts (id, e)
unfolding IsAssembler
lookup-IsEntry a id e q (s, p, l) = All-lookup (IsEntry a.max_parts) id a.entries e p q

abbrev pub sum_received : List (ℕ × SplitEntry) → ℕ
sum_received [] = 0
sum_received ((id, e) ∷ m) = e.received + sum_received m

length-present_parts :
    (parts : List (Option (List ℕ))) → length (present_parts parts) ≡ count_some parts
unfolding present_parts
length-present_parts [] = refl
length-present_parts (none ∷ parts) = length-present_parts parts
length-present_parts (some x ∷ parts) = ap suc (length-present_parts parts)

length-drain_entries :
    (limit : ℕ) (m : List (ℕ × SplitEntry))
    → All (IsEntry limit) m
    → length (drain_entries m) ≡ sum_received m
unfolding drain_entries IsEntry
length-drain_entries limit [] h = refl
length-drain_entries limit ((id, e) ∷ m) ((l, r, b, k), h) = omega (
  arith,
  length-append (present_parts e.parts) (drain_entries m),
  length-present_parts e.parts,
  length-drain_entries limit m h,
  r,
)

-- Draining gives back as many parts as the compounds have counted, and leaves no compound.
pub length-drain_buffered_parts :
    (a : SplitAssembler)
    → IsAssembler a
    → (length (drain_buffered_parts a).1 ≡ sum_received a.entries)
      × ((drain_buffered_parts a).0.entries ≡ [])
unfolding drain_buffered_parts IsAssembler
length-drain_buffered_parts a (s, h, l) = (length-drain_entries a.max_parts a.entries h, refl)
