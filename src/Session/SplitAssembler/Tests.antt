-- ===== src/Session/SplitAssembler/Tests.antt =====
-- The theorems on the assembler at a concrete payload of three parts.
use raknet_rust.Common.{ℕ, refl, List, [], ◌∷◌, inr, arith}
use raknet_rust.Common.Map.{lookup}
use raknet_rust.Protocol.Frame.{SplitInfo}
use raknet_rust.Protocol.Frame.Samples.{part_frame}
use raknet_rust.Session.SplitAssembler.{SplitAssembler, new, new_entry, prune, prune_entries, add}
use raknet_rust.Session.SplitAssembler.Invariant.{IsAssembler, new-IsAssembler}
use raknet_rust.Session.SplitAssembler.Bounded.{add-IsAssembler}
use raknet_rust.Session.SplitAssembler.Reassembly.{Advances, Holds, add-Advances}

abbrev empty : SplitAssembler
empty = new 5_000_000_000 128 8

abbrev chunks : List (List ℕ)
chunks = (1 ∷ 2 ∷ []) ∷ (3 ∷ 4 ∷ []) ∷ (5 ∷ []) ∷ []

abbrev second : SplitInfo
second = record { part_count = 3; part_id = 9; part_index = 1 }

add-IsAssembler_second : IsAssembler (add empty (part_frame 1 (3 ∷ 4 ∷ [])) 10).0
add-IsAssembler_second =
    add-IsAssembler empty (part_frame 1 (3 ∷ 4 ∷ [])) 10 (new-IsAssembler 5_000_000_000 128 8)

add-Advances-second :
    Advances chunks 9
      (new_entry (part_frame 1 (3 ∷ 4 ∷ [])) second 10)
      1
      (add empty (part_frame 1 (3 ∷ 4 ∷ [])) 10)
add-Advances-second =
    add-Advances empty (part_frame 1 (3 ∷ 4 ∷ [])) second 10 chunks
      (new_entry (part_frame 1 (3 ∷ 4 ∷ [])) second 10) (new-IsAssembler 5_000_000_000 128 8) refl
      refl (unfold Holds new prune prune_entries lookup in inr (refl, omega arith, refl)) refl refl
      (omega arith) (unfold new prune prune_entries in omega arith)
