-- ===== src/Session/Dispatch/Build.antt =====
-- What a datagram takes out of the queue.
use raknet_rust.Common.{
  ℕ, zero, suc, ◌+◌, ◌-◌, ◌≤◌, ◌<◌, ◌≡◌, refl, sym, ap, ◌∙◌, subst, inl, inr, Bool, true, false,
  ◌||◌, ◌==◌, List, [], ◌∷◌, ◌++◌, append_assoc, append-nil, length, All, Option, none, some,
  Bool-cases, arith,
}
use raknet_rust.Common.Int.{max_u64}
use raknet_rust.Common.Floats.{Floats}
use raknet_rust.Session.Outgoing.{QueuedFrame, Sender}
use raknet_rust.Session.Outgoing.Parts.{frames_of, queued_sizes}
use raknet_rust.Session.Congestion.{can_emit_new_reliable_datagram}
use raknet_rust.Session.Sent.{Sent}
use raknet_rust.Session.Dispatch.{
  MinHeap, Draft, fits, contains, add_receipt, add_queued, take_out, pop_next_frame_for_datagram,
  fill,
}
use raknet_rust.Session.Dispatch.Pick.{
  Same, Same-trans, Same-cons, IsPicked, pop_next_frame_for_datagram-IsPicked,
}

abbrev pub any_reliable : List QueuedFrame → Bool
any_reliable [] = false
any_reliable (q ∷ qs) = q.is_reliable || any_reliable qs

abbrev has_receipt : Option ℕ → ℕ → Bool
has_receipt none id = false
has_receipt (some j) id = j == id

-- Whether one of the frames carries a receipt.
abbrev pub carries : List QueuedFrame → ℕ → Bool
carries [] id = false
carries (q ∷ qs) id = has_receipt q.receipt_id id || carries qs id

contains-append_one :
    (ids : List ℕ) (j id : ℕ) → contains (ids ++ (j ∷ [])) id ≡ (contains ids id || j == id)
contains-append_one [] j id = ground arith
contains-append_one (x ∷ xs) j id = ground (arith, contains-append_one xs j id)

contains-add_receipt :
    (ids : List ℕ) (r : Option ℕ) (id : ℕ)
    → contains (add_receipt ids r) id ≡ (contains ids id || has_receipt r id)
contains-add_receipt ids none id = ground arith
contains-add_receipt ids (some j) id = elim (Bool-cases (contains ids j)) [
  | inl t ↦ rw t (elim (Bool-cases (j == id)) [
    | inl e ↦
        let same : contains ids j ≡ contains ids id = ap (contains ids) (ground arith) in
        ground (arith, same)
    | inr f ↦ ground arith
  ])
  | inr f ↦ rw f (contains-append_one ids j id)
]

fits_lem :
    (mtu : ℕ) (allow : Bool) (size remaining : ℕ) (q : QueuedFrame)
    → mtu < max_u64
    → fits mtu allow size remaining q ≡ true
    → (size + q.encoded_size ≤ mtu)
      × (q.encoded_size ≤ remaining)
      × (q.is_reliable ≡ true → allow ≡ true)
unfolding fits
fits_lem mtu allow size remaining q m t = (ground arith, ground arith, λ r. ground arith)

-- Every frame of `taken`, when its turn came, was allowed to go and fitted what was left of the datagram
-- and of the budget, and of the frames that did so then, the later ones and those that are `left`, none
-- is lighter.
abbrev pub AreLightest : ℕ → Bool → Bool → ℕ → ℕ → List QueuedFrame → List QueuedFrame → Type 0
AreLightest mtu room reliable size remaining [] left = Unit {0}
AreLightest mtu room reliable size remaining (q ∷ qs) left =
    (fits mtu (reliable || room) size remaining q ≡ true)
    × All (λ p. fits mtu (reliable || room) size remaining p ≡ true → q.weight ≤ p.weight)
        (qs ++ left)
    × AreLightest mtu room (reliable || q.is_reliable) (size + q.encoded_size)
        (remaining - q.encoded_size) qs left

module _ ⦃h : MinHeap⦄ {F : Type 0} ⦃d : Floats F⦄ where
  abbrev pub window_open : Sent F → Bool
  window_open sent = can_emit_new_reliable_datagram sent.congestion (length sent.sent_datagrams)

  -- The loop took frames out of the queue, and stopped when no other one fits.
  pub record Filled (sent : Sent F) (s : Sender) (g : Draft) (s' : Sender) (g' : Draft)
      : Type 1 where
    pub taken : List QueuedFrame
    pub frames : g'.frames ≡ g.frames ++ frames_of taken
    pub same : Same (taken ++ s'.outgoing_heap) s.outgoing_heap
    pub lightest :
        AreLightest s.mtu
          (window_open sent)
          g.has_reliable
          g.datagram_size
          g.remaining
          taken
          s'.outgoing_heap
    pub size : g'.datagram_size ≡ g.datagram_size + queued_sizes taken
    pub fit : g.datagram_size ≤ s.mtu → g'.datagram_size ≤ s.mtu
    pub budget : g'.remaining + queued_sizes taken ≡ g.remaining
    pub bytes : s'.outgoing_queued_bytes ≡ s.outgoing_queued_bytes - queued_sizes taken
    pub mtu : s'.mtu ≡ s.mtu
    pub max_frames : s'.outgoing_queue_max_frames ≡ s.outgoing_queue_max_frames
    pub max_bytes : s'.outgoing_queue_max_bytes ≡ s.outgoing_queue_max_bytes
    pub reliable : g'.has_reliable ≡ (g.has_reliable || any_reliable taken)
    pub allowed : g'.has_reliable ≡ true → (g.has_reliable || window_open sent) ≡ true
    pub receipts :
        (id : ℕ) → contains g'.receipt_ids id ≡ (contains g.receipt_ids id || carries taken id)
    pub stops :
        All
          (λ p.
            fits s.mtu (g'.has_reliable || window_open sent) g'.datagram_size g'.remaining p
            ≡ false)
          s'.outgoing_heap

  fill_step :
      (fuel : ℕ) (sent : Sent F) (s : Sender) (g : Draft) (picked : Option QueuedFrame)
      (heap : List QueuedFrame)
      → length s.outgoing_heap < suc fuel
      → s.mtu < max_u64
      → pop_next_frame_for_datagram s
          (g.has_reliable || window_open sent)
          g.datagram_size
          g.remaining
        ≡ some (picked, heap)
      → IsPicked
          (fits s.mtu (g.has_reliable || window_open sent) g.datagram_size g.remaining)
          s.outgoing_heap
          []
          picked
          heap
      → ((s' : Sender) (g' : Draft)
          → length s'.outgoing_heap < fuel
          → s'.mtu < max_u64
          → (r : Sender × Draft) × (fill fuel sent s' g' ≡ some r) × Filled sent s' g' r.0 r.1)
      → (r : Sender × Draft) × (fill (suc fuel) sent s g ≡ some r) × Filled sent s g r.0 r.1
  unfolding fill
  fill_step fuel sent s g none heap l m e w more =
      let all = subst (Same heap) (append-nil s.outgoing_heap) w.1 in
      (
        (record s { outgoing_heap = heap }, g),
        rw (fill, e) refl,
        record {
          taken = [];
          frames = sym (append-nil g.frames);
          same = all;
          lightest = tt;
          size = omega arith;
          fit = λ f. f;
          budget = omega arith;
          bytes = omega arith;
          mtu = refl;
          max_frames = refl;
          max_bytes = refl;
          reliable = ground arith;
          allowed = λ t. ground arith;
          receipts = λ id. ground arith;
          stops = (all.all _).1 w.0;
        },
      )
  fill_step fuel sent s g (some q) heap l m e w more =
      let all = subst (Same (q ∷ heap)) (append-nil s.outgoing_heap) w.2 in
      let count = all.count in
      let g' = add_queued g q in
      let (r, e', f) =
        more (take_out s q heap) g' (unfold take_out in omega arith) (unfold take_out in m) in
      let test =
        fits_lem s.mtu (g.has_reliable || window_open sent) g.datagram_size g.remaining q m w.0 in
      (
        r,
        rw (fill, e) e',
        unfold take_out add_queued in
            record {
              taken = q ∷ f.taken;
              frames = f.frames ∙ append_assoc g.frames (q.frame ∷ []) (frames_of f.taken);
              same = Same-trans _ _ _ (Same-cons q _ _ f.same) all;
              lightest = (w.0, (f.same.all _).1 ((all.all _).1 w.1).1, f.lightest);
              size = omega (arith, f.size);
              fit = λ t. f.fit test.0;
              budget = omega (arith, f.budget, test.1);
              bytes = omega (arith, f.bytes);
              mtu = f.mtu;
              max_frames = f.max_frames;
              max_bytes = f.max_bytes;
              reliable = ground (arith, f.reliable);
              allowed = λ t. ground (arith, f.allowed t, test.2);
              receipts = λ id.
                  ground (arith, f.receipts id, contains-add_receipt g.receipt_ids q.receipt_id id);
              stops = f.stops;
            },
      )

  pub fill-Filled :
      (fuel : ℕ) (sent : Sent F) (s : Sender) (g : Draft)
      → length s.outgoing_heap < fuel
      → s.mtu < max_u64
      → (r : Sender × Draft) × (fill fuel sent s g ≡ some r) × Filled sent s g r.0 r.1
  unfolding fill
  fill-Filled zero sent s g l m = absurd (omega arith)
  fill-Filled (suc fuel) sent s g l m =
      let ((picked, heap), e, w) =
        pop_next_frame_for_datagram-IsPicked s (g.has_reliable || window_open sent) g.datagram_size
          g.remaining in
      fill_step fuel sent s g picked heap l m e w (fill-Filled fuel sent)
