-- ===== src/Session/Send/Reassembly.antt =====
-- The parts of a payload, as the split assembler of the peer takes them.
use raknet_rust.Common.{
  ℕ, zero, suc, ◌+◌, ◌*◌, ◌%◌, ◌^◌, ◌≤◌, ◌<◌, ◌≡◌, refl, subst, sym, ap, ◌∙◌, min, true, List, [],
  ◌∷◌, ◌++◌, map, length, take, drop, length-drop, get_elem?, Option, some, arith,
}
use raknet_rust.Protocol.Sequence24.{Sequence24}
use raknet_rust.Protocol.Frame.{Frame, SplitInfo}
use raknet_rust.Session.SplitAssembler.{SplitEntry, SplitAssembler, prune, add}
use raknet_rust.Session.SplitAssembler.Parts.{concat}
use raknet_rust.Session.SplitAssembler.Invariant.{IsAssembler}
use raknet_rust.Session.SplitAssembler.Reassembly.{Holds, Advances, add-Advances}
use raknet_rust.Common.Int.{max_u64}
use raknet_rust.Protocol.Reliability.{Reliability}
use raknet_rust.Session.Outgoing.{
  RakPriority, Sender, PartContext, part_of, div_ceil, enqueue_split_frames,
}
use raknet_rust.Session.Outgoing.Parts.{frames_of, index_for, index_after, parts}
use raknet_rust.Session.Send.Estimate.{div_ceil_lem, length-parts, enqueue_split_frames-parts}

abbrev pub payloads : List Frame → List (List ℕ)
payloads fs = map (λ f. f.payload) fs

take-drop : (n : ℕ) (xs : List ℕ) → take n xs ++ drop n xs ≡ xs
take-drop zero xs = refl
take-drop (suc n) [] = refl
take-drop (suc n) (x ∷ xs) = ap (λ t. x ∷ t) (take-drop n xs)

-- The parts in a row are the payload, if there are enough of them.
concat-parts :
    (left : ℕ) (c : PartContext) (idx : ℕ) (i : Sequence24) (payload : List ℕ)
    → length payload ≤ left * c.max_split_payload
    → concat (payloads (parts left c idx i payload)) ≡ payload
unfolding parts part_of
concat-parts zero c idx i [] h = refl
concat-parts zero c idx i (x ∷ payload) h = absurd (omega arith)
concat-parts (suc left) c idx i payload h =
    let taken = min (length payload) c.max_split_payload in
    let over = length-drop taken payload in
    ap (λ t. take taken payload ++ t)
      (concat-parts left c (idx + 1) (index_after c.reliability i) (drop taken payload)
        (ground (arith, over)))
    ∙ take-drop taken payload

abbrev pub info : ℕ → ℕ → ℕ → SplitInfo
info n id j = record { part_count = n; part_id = id; part_index = j }

abbrev pub split_at : PartContext → ℕ → SplitInfo
split_at c j = info c.part_count c.split_id j

split_exact :
    (c : PartContext) (idx : ℕ)
    → idx < 2 ^ 32
    → c.part_count < 2 ^ 32
    → some (info (c.part_count % 2 ^ 32) c.split_id (idx % 2 ^ 32)) ≡ some (split_at c (idx + 0))
split_exact c idx h m =
    let whole : c.part_count % 2 ^ 32 ≡ c.part_count = omega arith in
    let same : idx % 2 ^ 32 ≡ idx + 0 = omega arith in
    ap (λ n. some (info n c.split_id (idx % 2 ^ 32))) whole
    ∙ ap (λ n. some (info c.part_count c.split_id n)) same

-- What the frame number `j` of the parts carries.
part_at :
    (left : ℕ) (c : PartContext) (idx j : ℕ) (i : Sequence24) (payload : List ℕ) (f : Frame)
    → idx + left < 2 ^ 32
    → c.part_count < 2 ^ 32
    → get_elem? (parts left c idx i payload) j ≡ some f
    → (f.header.is_split ≡ true)
      × (f.split ≡ some (split_at c (idx + j)))
      × (get_elem? (payloads (parts left c idx i payload)) j ≡ some f.payload)
      × (j < left)
unfolding parts part_of
part_at zero c idx j i payload f h m e = cc
part_at (suc left) c idx zero i payload f h m e =
    let first =
      part_of c idx (index_for c.reliability i)
        (take (min (length payload) c.max_split_payload) payload) in
    let same : first ≡ f = cc in
    subst
      (λ f.
        (f.header.is_split ≡ true)
        × (f.split ≡ some (split_at c (idx + 0)))
        × (some first.payload ≡ some f.payload)
        × (0 < suc left))
      same (refl, split_exact c idx (omega arith) m, refl, omega arith)
part_at (suc left) c idx (suc j) i payload f h m e =
    let (t, s, g, l) =
      part_at left c (idx + 1) j (index_after c.reliability i)
        (drop (min (length payload) c.max_split_payload) payload) f (omega arith) m e in
    (t, s ∙ ap (λ n. some (split_at c n)) (omega arith), g, omega arith)

length-payloads : (fs : List Frame) → length (payloads fs) ≡ length fs
length-payloads [] = refl
length-payloads (f ∷ fs) = ap suc (length-payloads fs)

-- The parts, one by one, at an assembler.
parts-Advances :
    (c : PartContext) (i : Sequence24) (payload : List ℕ) (a : SplitAssembler) (now j : ℕ)
    (f : Frame) (e : SplitEntry)
    → 1 ≤ c.max_split_payload
    → c.part_count ≡ div_ceil (length payload) c.max_split_payload
    → c.part_count < 2 ^ 32
    → c.part_count ≤ (prune a now).0.max_parts
    → IsAssembler a
    → get_elem? (parts c.part_count c 0 i payload) j ≡ some f
    → Holds (prune a now).0 f (split_at c j) now (payloads (parts c.part_count c 0 i payload)) e
    → Advances (payloads (parts c.part_count c 0 i payload)) c.split_id e j (add a f now)
      × (concat (payloads (parts c.part_count c 0 i payload)) ≡ payload)
parts-Advances c i payload a now j f e k n m room s at_j held =
    let fs = parts c.part_count c 0 i payload in
    let (t, split, here, below) = part_at c.part_count c 0 j i payload f (omega arith) m at_j in
    let enough : length payload ≤ c.part_count * c.max_split_payload =
      subst (λ q. length payload ≤ q * c.max_split_payload) (sym n)
        (div_ceil_lem (length payload) c.max_split_payload k).0 in
    let count : c.part_count ≡ length (payloads fs) =
      sym (length-payloads fs ∙ length-parts c.part_count c 0 i payload) in
    (
      add-Advances a f (split_at c j) now (payloads fs) e s t
          (split ∙ ap (λ n. some (split_at c n)) (omega arith)) held count here below room,
      concat-parts c.part_count c 0 i payload enough,
    )

append_cancel : (xs ys zs : List Frame) → xs ++ ys ≡ xs ++ zs → ys ≡ zs
append_cancel [] ys zs e = e
append_cancel (x ∷ xs) ys zs e = append_cancel xs ys zs (ap (drop 1) e)

-- A payload that is queued in parts puts the frames `fs` behind the queue, and the part number `j` of them
-- comes to an assembler that is within its limits and has room for the payload, or holds parts of it
-- that are not out of date. Then the part advances the compound, whatever the order of arrival: it
-- completes it, or is counted in it, or was there. And what a complete compound hands over is the
-- payload that was queued. The parts are fewer than 2 ^ 32 and no more than the assembler allows, and
-- the bytes counted in the queue fit 64 bits.
pub add-enqueue_split_frames :
    (s : Sender) (payload : List ℕ) (rel : Reliability) (channel : ℕ) (p : RakPriority)
    (receipt : Option ℕ) (fs : List Frame) (a : SplitAssembler) (now j : ℕ) (f : Frame)
    (e : SplitEntry)
    → s.outgoing_queued_bytes ≤ max_u64
    → frames_of (enqueue_split_frames s payload rel channel p receipt).0.outgoing_heap
      ≡ frames_of s.outgoing_heap ++ fs
    → length fs < 2 ^ 32
    → length fs ≤ (prune a now).0.max_parts
    → IsAssembler a
    → get_elem? fs j ≡ some f
    → Holds (prune a now).0 f (info (length fs) s.split_write_index j) now (payloads fs) e
    → Advances (payloads fs) s.split_write_index e j (add a f now)
      × (concat (payloads fs) ≡ payload)
add-enqueue_split_frames s payload rel channel p receipt fs a now j f e small queued few room v =
    let (c, i, k, n, id, all) = enqueue_split_frames-parts s payload rel channel p receipt small in
    let same : parts c.part_count c 0 i payload ≡ fs =
      append_cancel (frames_of s.outgoing_heap) _ _ (sym all ∙ queued) in
    let count : c.part_count ≡ length fs =
      sym (length-parts c.part_count c 0 i payload) ∙ ap (λ fs. length fs) same in
    subst
      (λ (gs : List Frame).
        (get_elem? gs j ≡ some f)
        → Holds (prune a now).0 f (info (length gs) s.split_write_index j) now (payloads gs) e
        → Advances (payloads gs) s.split_write_index e j (add a f now)
          × (concat (payloads gs) ≡ payload))
      same
      λ at_j held.
        subst
          (λ id.
            Advances (payloads (parts c.part_count c 0 i payload)) id e j (add a f now)
            × (concat (payloads (parts c.part_count c 0 i payload)) ≡ payload))
          id
          (parts-Advances c i payload a now j f e k n (omega (arith, count, few))
            (omega (arith, count, room)) v at_j
            (subst
              (λ n. Holds (prune a now).0 f n now (payloads (parts c.part_count c 0 i payload)) e)
              (ap (λ m. info m s.split_write_index j) (length-parts c.part_count c 0 i payload)
                ∙ ap (λ id. info c.part_count id j) (sym id))
              held))
