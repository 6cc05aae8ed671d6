-- ===== src/Common/Map.antt =====
-- A map with number keys as a list in the order of its keys (`BTreeMap`; also `HashMap`, where the
-- order of the entries is not looked at).
use Prim.Native.Nat.{ℕ, suc, ◌≤◌, ◌<◌}
use mathlib.Core.Path.{◌≡◌, refl, subst}
use mathlib.Core.Logic.{inl, inr}
use mathlib.Core.List.{List, [], ◌∷◌}
use mathlib.Core.Option.{Option, none, some}
use native.Mathlib.Omega.{arith}
use raknet_rust.Common.Tests.{◌==◌, ltb, Bool-cases, if◌then◌else◌}
use raknet_rust.Common.Lists.{length, All}

module _ {ℓ} {V : Type ℓ} where
  unfoldable pub lookup : ℕ → List (ℕ × V) → Option V
  lookup k [] = none
  lookup k ((j, v) ∷ m) = if j == k then some v else lookup k m

  unfoldable pub insert : ℕ → V → List (ℕ × V) → List (ℕ × V)
  insert k v [] = (k, v) ∷ []
  insert k v ((j, w) ∷ m) =
      if j == k then (k, v) ∷ m else if ltb k j then (k, v) ∷ (j, w) ∷ m else (j, w) ∷ insert k v m

  unfoldable pub remove : ℕ → List (ℕ × V) → List (ℕ × V)
  remove k [] = []
  remove k ((j, w) ∷ m) = if j == k then m else (j, w) ∷ remove k m

  -- The keys rise.
  abbrev pub Above : ℕ → List (ℕ × V) → Type 0
  Above n [] = Unit {0}
  Above n ((j, w) ∷ m) = (n ≤ j) × Above (suc j) m

module _ {ℓ} {V : Type ℓ} where
  pub Above-mono : (n k : ℕ) (m : List (ℕ × V)) → n ≤ k → Above k m → Above n m
  Above-mono n k [] h s = tt
  Above-mono n k ((j, w) ∷ m) h s = (omega arith, s.1)

  pub lookup-below : (n k : ℕ) (m : List (ℕ × V)) → Above n m → k < n → lookup k m ≡ none
  unfolding lookup
  lookup-below n k [] s h = refl
  lookup-below n k ((j, w) ∷ m) s h = ground (arith, lookup-below (suc j) k m s.1)

  pub lookup-insert :
      (k i : ℕ) (v : V) (m : List (ℕ × V))
      → lookup i (insert k v m) ≡ (if k == i then some v else lookup i m)
  unfolding lookup insert
  lookup-insert k i v [] = refl
  lookup-insert k i v ((j, w) ∷ m) = ground (arith, lookup-insert k i v m)

  pub lookup-remove :
      (n k i : ℕ) (m : List (ℕ × V))
      → Above n m
      → lookup i (remove k m) ≡ (if k == i then none else lookup i m)
  unfolding lookup remove
  lookup-remove n k i [] s = ground arith
  lookup-remove n k i ((j, w) ∷ m) s =
      ground (arith, lookup-remove (suc j) k i m s.1, lookup-below (suc j) i m s.1)

  pub insert-Above :
      (n k : ℕ) (v : V) (m : List (ℕ × V)) → n ≤ k → Above n m → Above n (insert k v m)
  unfolding insert
  insert-Above n k v [] h s = (h, tt)
  insert-Above n k v ((j, w) ∷ m) h s =
      ground (arith, insert-Above (suc j) k v m, Above-mono (suc k) (suc j) m)

  pub remove-Above : (n k : ℕ) (m : List (ℕ × V)) → Above n m → Above n (remove k m)
  unfolding remove
  remove-Above n k [] s = tt
  remove-Above n k ((j, w) ∷ m) s =
      ground (arith, remove-Above (suc j) k m s.1, Above-mono n (suc j) m)

  pub length-remove :
      (k : ℕ) (m : List (ℕ × V)) (v : V)
      → lookup k m ≡ some v
      → suc (length (remove k m)) ≡ length m
  unfolding lookup remove
  length-remove k [] v e = cc
  length-remove k ((j, w) ∷ m) v e = ground (arith, length-remove k m v)

  pub length-insert : (k : ℕ) (v : V) (m : List (ℕ × V)) → length (insert k v m) ≤ suc (length m)
  unfolding insert
  length-insert k v [] = omega arith
  length-insert k v ((j, w) ∷ m) = ground (arith, length-insert k v m)

  pub insert-All {κ} :
      (P : ℕ × V → Type κ) (k : ℕ) (v : V) (m : List (ℕ × V))
      → P (k, v)
      → All P m
      → All P (insert k v m)
  unfolding insert
  insert-All P k v [] p h = (p, tt)
  insert-All P k v ((j, w) ∷ m) p h = elim (Bool-cases (j == k)) [
    | inl e ↦ rw e (p, h.1)
    | inr e ↦ elim (Bool-cases (ltb k j)) [
      | inl l ↦ rw (e, l) (p, h)
      | inr l ↦ rw (e, l) (h.0, insert-All P k v m p h.1)
    ]
  ]

  pub remove-All {κ} :
      (P : ℕ × V → Type κ) (k : ℕ) (m : List (ℕ × V)) → All P m → All P (remove k m)
  unfolding remove
  remove-All P k [] h = tt
  remove-All P k ((j, w) ∷ m) h = elim (Bool-cases (j == k)) [
    | inl e ↦ rw e h.1
    | inr e ↦ rw e (h.0, remove-All P k m h.1)
  ]

  pub All-lookup {κ} :
      (P : ℕ × V → Type κ) (k : ℕ) (m : List (ℕ × V)) (v : V)
      → All P m
      → lookup k m ≡ some v
      → P (k, v)
  unfolding lookup
  All-lookup P k [] v h e = cc
  All-lookup P k ((j, w) ∷ m) v h e = elim (Bool-cases (j == k)) [
    | inl t ↦ subst P (ground arith) h.0
    | inr f ↦ All-lookup P k m v h.1 (ground arith)
  ]

  pub length-insert_known :
      (n k : ℕ) (v w : V) (m : List (ℕ × V))
      → Above n m
      → lookup k m ≡ some w
      → length (insert k v m) ≡ length m
  unfolding lookup insert
  length-insert_known n k v w [] s e = cc
  length-insert_known n k v w ((j, x) ∷ m) s e =
      ground (arith, length-insert_known (suc j) k v w m s.1, lookup-below (suc j) k m s.1)

  pub length-remove-le : (k : ℕ) (m : List (ℕ × V)) → length (remove k m) ≤ length m
  unfolding remove
  length-remove-le k [] = omega arith
  length-remove-le k ((j, w) ∷ m) = ground (arith, length-remove-le k m)
