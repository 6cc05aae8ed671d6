-- ===== src/Session/Sent/Receipts.antt =====
-- The counters of the receipts: how many datagrams in flight carry each.
use raknet_rust.Common.{
  ℕ, ◌+◌, ◌-◌, ◌≤◌, ◌<◌, ◌≡◌, refl, ap, ◌∙◌, inl, inr, true, ◌&&◌, ◌==◌, ltb, if◌then◌else◌, List,
  [], ◌∷◌, ◌++◌, none, some, Bool-cases, arith,
}
use raknet_rust.Common.Int.{max_u64, saturating_add}
use raknet_rust.Common.Map.{lookup, lookup-insert, lookup-remove, Above, insert-Above, remove-Above}
use raknet_rust.Session.Sent.{pending_of, count_receipt, count_receipts, ack_receipt, ack_receipts}

-- How often a number stands in a list.
abbrev pub times : ℕ → List ℕ → ℕ
times j [] = 0
times j (x ∷ xs) = (if x == j then 1 else 0) + times j xs

pub times-append : (j : ℕ) (xs ys : List ℕ) → times j (xs ++ ys) ≡ times j xs + times j ys
times-append j [] ys = omega arith
times-append j (x ∷ xs) ys = omega (arith, times-append j xs ys)

-- Every receipt has the counter `n` of it, and no entry where that is 0.
pub record IsCounted (tracking : List (ℕ × ℕ)) (n : ℕ → ℕ) : Type 0 where
  pub order : Above 0 tracking
  pub count : (id : ℕ) → lookup id tracking ≡ (if n id == 0 then none else some (n id))

pub IsCounted-ext :
    (tracking : List (ℕ × ℕ)) (n k : ℕ → ℕ)
    → ((id : ℕ) → n id ≡ k id)
    → IsCounted tracking n
    → IsCounted tracking k
IsCounted-ext tracking n k e v = record {
  order = v.order;
  count = λ id. ground (arith, v.count id, e id);
}

-- 1 if the counter falls to 0.
abbrev pub falls : ℕ → ℕ → ℕ
falls a b = if ltb 0 a && b == 0 then 1 else 0

ack_receipt_lem :
    (tracking : List (ℕ × ℕ)) (n : ℕ → ℕ) (id : ℕ)
    → IsCounted tracking n
    → 1 ≤ n id
    → let r = ack_receipt tracking id in
      IsCounted r.0 (λ j. n j - times j (id ∷ []))
      × ((j : ℕ) → times j r.1 ≡ falls (n j) (n j - times j (id ∷ [])))
unfolding ack_receipt
ack_receipt_lem tracking n id v h =
    let here : lookup id tracking ≡ some (n id) = ground (arith, v.count id) in
    let same : (j : ℕ) → id == j ≡ true → n id ≡ n j = λ j e. ap n (ground arith) in
    elim (Bool-cases (ltb 1 (n id))) [
      | inl t ↦
          rw (ack_receipt, here, t)
            (
              record {
                order = insert-Above 0 id (n id - 1) tracking (omega arith) v.order;
                count = λ j. ground (arith, lookup-insert id j (n id - 1) tracking, v.count j);
              },
              λ j. ground (arith, same j),
            )
      | inr f ↦
          rw (ack_receipt, here, f)
            (
              record {
                order = remove-Above 0 id tracking v.order;
                count = λ j. ground (arith, lookup-remove 0 id j tracking v.order, v.count j);
              },
              λ j. ground (arith, same j),
            )
    ]

-- A datagram that carries the receipts `ids` has arrived: the counters fall by as much, and the receipts
-- whose counter falls to 0 are reported, once each.
pub ack_receipts_lem :
    (tracking : List (ℕ × ℕ)) (n : ℕ → ℕ) (ids : List ℕ)
    → IsCounted tracking n
    → ((j : ℕ) → times j ids ≤ n j)
    → let r = ack_receipts tracking ids in
      IsCounted r.0 (λ j. n j - times j ids)
      × ((j : ℕ) → times j r.1 ≡ falls (n j) (n j - times j ids))
unfolding ack_receipts
ack_receipts_lem tracking n [] v h =
    (IsCounted-ext tracking n _ (λ j. omega arith) v, λ j. ground arith)
ack_receipts_lem tracking n (id ∷ ids) v h =
    let here : id == id ≡ true = ground arith in
    let first = ack_receipt_lem tracking n id v (ground (arith, h id, here)) in
    let m : ℕ → ℕ = λ j. n j - times j (id ∷ []) in
    let rest =
      ack_receipts_lem (ack_receipt tracking id).0 m ids first.0 (λ j. omega (arith, h j)) in
    (
      IsCounted-ext _ _ _ (λ j. omega (arith, h j)) rest.0,
      λ j. times-append j (ack_receipt tracking id).1 _ ∙ ground (arith, first.1 j, rest.1 j, h j),
    )

count_receipt_lem :
    (tracking : List (ℕ × ℕ)) (n : ℕ → ℕ) (id : ℕ)
    → IsCounted tracking n
    → n id < max_u64
    → IsCounted (count_receipt tracking id) (λ j. n j + times j (id ∷ []))
unfolding count_receipt
count_receipt_lem tracking n id v h =
    let same : (j : ℕ) → id == j ≡ true → n id ≡ n j = λ j e. ap n (ground arith) in
    let pending : pending_of tracking id ≡ n id = elim (Bool-cases (n id == 0)) [
      | inl t ↦ rw (pending_of, v.count id, t) (ground arith)
      | inr f ↦ rw (pending_of, v.count id, f) refl
    ] in
    record {
      order = insert-Above 0 id _ tracking (omega arith) v.order;
      count = λ j. ground (
        arith,
        lookup-insert id j (saturating_add (pending_of tracking id) 1) tracking,
        v.count j,
        same j,
        pending,
      );
    }

-- Sending a datagram with the receipts `ids` raises their counters by as much.
pub count_receipts_lem :
    (tracking : List (ℕ × ℕ)) (n : ℕ → ℕ) (ids : List ℕ)
    → IsCounted tracking n
    → ((j : ℕ) → n j + times j ids ≤ max_u64)
    → IsCounted (count_receipts tracking ids) (λ j. n j + times j ids)
unfolding count_receipts
count_receipts_lem tracking n [] v h = IsCounted-ext tracking n _ (λ j. omega arith) v
count_receipts_lem tracking n (id ∷ ids) v h =
    let here : id == id ≡ true = ground arith in
    let first = count_receipt_lem tracking n id v (ground (arith, h id, here)) in
    IsCounted-ext _ _ _ (λ j. omega arith)
      (count_receipts_lem (count_receipt tracking id) _ ids first (λ j. omega (arith, h j)))
