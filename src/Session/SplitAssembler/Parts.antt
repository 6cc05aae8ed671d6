-- ===== src/Session/SplitAssembler/Parts.antt =====
-- The parts of one compound, against the chunks that the sender cut.
use raknet_rust.Common.{
  ℕ, zero, suc, ◌≤◌, ◌<◌, ◌≡◌, refl, ap, List, [], ◌∷◌, ◌++◌, length, get_or, get_elem?, set,
  replicate, Option, none, some, Option-cases, inl, inr, arith,
}
use raknet_rust.Session.SplitAssembler.{merge}

abbrev pub count_some : List (Option (List ℕ)) → ℕ
count_some [] = 0
count_some (none ∷ ps) = count_some ps
count_some (some x ∷ ps) = suc (count_some ps)

pub count_some-le : (ps : List (Option (List ℕ))) → count_some ps ≤ length ps
count_some-le [] = omega arith
count_some-le (none ∷ ps) = omega (arith, count_some-le ps)
count_some-le (some x ∷ ps) = omega (arith, count_some-le ps)

pub count_some-replicate : (n : ℕ) → count_some (replicate n none) ≡ 0
count_some-replicate zero = refl
count_some-replicate (suc n) = count_some-replicate n

-- A part that is not there yet counts once.
pub count_some-set :
    (ps : List (Option (List ℕ))) (i : ℕ) (x : List ℕ)
    → i < length ps
    → get_or ps i none ≡ none
    → count_some (set ps i (some x)) ≡ suc (count_some ps)
count_some-set [] i x h e = absurd (omega arith)
count_some-set (none ∷ ps) zero x h e = refl
count_some-set (some y ∷ ps) zero x h e = cc
count_some-set (none ∷ ps) (suc i) x h e = count_some-set ps i x (omega arith) e
count_some-set (some y ∷ ps) (suc i) x h e = ap suc (count_some-set ps i x (omega arith) e)

pub merge_total :
    (ps : List (Option (List ℕ)))
    → count_some ps ≡ length ps
    → (bytes : List ℕ) × (merge ps ≡ some bytes)
unfolding merge
merge_total [] h = ([], refl)
merge_total (none ∷ ps) h = absurd (omega (arith, count_some-le ps))
merge_total (some x ∷ ps) h =
    let (bytes, e) = merge_total ps (omega arith) in (x ++ bytes, rw (e, merge))

abbrev pub concat : List (List ℕ) → List ℕ
concat [] = []
concat (c ∷ cs) = c ++ concat cs

-- There is a place for each chunk, and each part that is there is the chunk of its place.
abbrev pub Partial : List (List ℕ) → List (Option (List ℕ)) → Type 0
Partial [] [] = Unit {0}
Partial [] (p ∷ ps) = ⊥
Partial (c ∷ cs) [] = ⊥
Partial (c ∷ cs) (none ∷ ps) = Partial cs ps
Partial (c ∷ cs) (some x ∷ ps) = (x ≡ c) × Partial cs ps

pub length-Partial :
    (cs : List (List ℕ)) (ps : List (Option (List ℕ))) → Partial cs ps → length ps ≡ length cs
length-Partial [] [] h = refl
length-Partial [] (p ∷ ps) h = absurd h
length-Partial (c ∷ cs) [] h = absurd h
length-Partial (c ∷ cs) (none ∷ ps) h = ap suc (length-Partial cs ps h)
length-Partial (c ∷ cs) (some x ∷ ps) h = ap suc (length-Partial cs ps h.1)

pub Partial-replicate : (cs : List (List ℕ)) → Partial cs (replicate (length cs) none)
Partial-replicate [] = tt
Partial-replicate (c ∷ cs) = Partial-replicate cs

pub Partial-set :
    (cs : List (List ℕ)) (ps : List (Option (List ℕ))) (i : ℕ) (x : List ℕ)
    → Partial cs ps
    → get_elem? cs i ≡ some x
    → Partial cs (set ps i (some x))
Partial-set [] [] i x h e = tt
Partial-set [] (p ∷ ps) i x h e = absurd h
Partial-set (c ∷ cs) [] i x h e = absurd h
Partial-set (c ∷ cs) (none ∷ ps) zero x h e = (cc, h)
Partial-set (c ∷ cs) (some y ∷ ps) zero x h e = (cc, h.1)
Partial-set (c ∷ cs) (none ∷ ps) (suc i) x h e = Partial-set cs ps i x h e
Partial-set (c ∷ cs) (some y ∷ ps) (suc i) x h e = (h.0, Partial-set cs ps i x h.1 e)

pub merge-Partial :
    (cs : List (List ℕ)) (ps : List (Option (List ℕ))) (bytes : List ℕ)
    → Partial cs ps
    → merge ps ≡ some bytes
    → bytes ≡ concat cs
unfolding merge
merge-Partial [] [] bytes h e = cc
merge-Partial [] (p ∷ ps) bytes h e = absurd h
merge-Partial (c ∷ cs) [] bytes h e = absurd h
merge-Partial (c ∷ cs) (none ∷ ps) bytes h e = cc
merge-Partial (c ∷ cs) (some x ∷ ps) bytes h e = elim (Option-cases (merge ps)) [
  | inl n ↦ ground (arith, n)
  | inr (b, q) ↦ let r = merge-Partial cs ps b h.1 q in ground (arith, r, q)
]
