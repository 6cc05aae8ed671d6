-- ===== src/Session/Outgoing/Parts.antt =====
-- The frames that a payload becomes.
use raknet_rust.Common.{
  ℕ, zero, suc, ◌+◌, ◌≤◌, ◌≡◌, refl, subst, sym, ap, ◌∙◌, inl, inr, min, Bool, true, false, leb,
  if◌then◌else◌, List, [], ◌∷◌, ◌++◌, append-nil, get_or, map, append_assoc, length, length-append,
  take, drop, Option, none, some, Bool-cases, arith,
}
use raknet_rust.Common.Int.{max_u64, saturating_add}
use raknet_rust.Protocol.Sequence24.{Sequence24, next}
use raknet_rust.Protocol.Reliability.{Reliability, is_reliable}
use raknet_rust.Protocol.Frame.{Frame, encoded_size}
use raknet_rust.Session.Outgoing.{
  RakPriority, as_index, is_idle, QueuedFrame, Sender, PartContext, next_reliable_index,
  reliable_index_for, next_weight, push_outgoing_frame, part_of, enqueue_parts,
}

abbrev pub frames_of : List QueuedFrame → List Frame
frames_of qs = map (λ q. q.frame) qs

abbrev pub sum_sizes : List Frame → ℕ
sum_sizes [] = 0
sum_sizes (f ∷ fs) = encoded_size f + sum_sizes fs

abbrev pub queued_sizes : List QueuedFrame → ℕ
queued_sizes [] = 0
queued_sizes (q ∷ qs) = q.encoded_size + queued_sizes qs

-- The frames are put behind the queue, and are counted in its bytes.
pub record Pushed (s s' : Sender) (fs : List Frame) : Type 0 where
  pub frames : frames_of s'.outgoing_heap ≡ frames_of s.outgoing_heap ++ fs
  pub count : length s'.outgoing_heap ≡ length s.outgoing_heap + length fs
  pub sizes : queued_sizes s'.outgoing_heap ≡ queued_sizes s.outgoing_heap + sum_sizes fs
  pub bytes : s'.outgoing_queued_bytes ≡ saturating_add s.outgoing_queued_bytes (sum_sizes fs)
  pub max_frames : s'.outgoing_queue_max_frames ≡ s.outgoing_queue_max_frames
  pub max_bytes : s'.outgoing_queue_max_bytes ≡ s.outgoing_queue_max_bytes

frames_of-append : (xs ys : List QueuedFrame) → frames_of (xs ++ ys) ≡ frames_of xs ++ frames_of ys
frames_of-append [] ys = refl
frames_of-append (x ∷ xs) ys = ap (λ t. x.frame ∷ t) (frames_of-append xs ys)

pub queued_sizes-append :
    (xs ys : List QueuedFrame) → queued_sizes (xs ++ ys) ≡ queued_sizes xs + queued_sizes ys
queued_sizes-append [] ys = omega arith
queued_sizes-append (x ∷ xs) ys = omega (arith, queued_sizes-append xs ys)

pub sum_sizes-append : (xs ys : List Frame) → sum_sizes (xs ++ ys) ≡ sum_sizes xs + sum_sizes ys
sum_sizes-append [] ys = omega arith
sum_sizes-append (x ∷ xs) ys = omega (arith, sum_sizes-append xs ys)

pub Pushed-trans :
    (s s' s'' : Sender) (fs gs : List Frame)
    → Pushed s s' fs
    → Pushed s' s'' gs
    → Pushed s s'' (fs ++ gs)
Pushed-trans s s' s'' fs gs a b = record {
  frames = b.frames ∙ ap (λ t. t ++ gs) a.frames ∙ append_assoc (frames_of s.outgoing_heap) fs gs;
  count = omega (arith, a.count, b.count, length-append fs gs);
  sizes = omega (arith, a.sizes, b.sizes, sum_sizes-append fs gs);
  bytes = ground (arith, a.bytes, b.bytes, sum_sizes-append fs gs);
  max_frames = b.max_frames ∙ a.max_frames;
  max_bytes = b.max_bytes ∙ a.max_bytes;
}

pub record SameQueue (s s' : Sender) : Type 0 where
  pub heap : s'.outgoing_heap ≡ s.outgoing_heap
  pub bytes : s'.outgoing_queued_bytes ≡ s.outgoing_queued_bytes
  pub max_frames : s'.outgoing_queue_max_frames ≡ s.outgoing_queue_max_frames
  pub max_bytes : s'.outgoing_queue_max_bytes ≡ s.outgoing_queue_max_bytes

next_weight-SameQueue : (s : Sender) (p : RakPriority) → SameQueue s (next_weight s p).0
unfolding next_weight
next_weight-SameQueue s p = elim (Bool-cases (is_idle s.outgoing_heap)) [
  | inl t ↦ rw t record { heap = refl; bytes = refl; max_frames = refl; max_bytes = refl }
  | inr f ↦
      elim (Bool-cases (leb s.last_min_weight (get_or s.outgoing_next_weights (as_index p) 0))) [
        | inl t ↦
            rw (f, t) record { heap = refl; bytes = refl; max_frames = refl; max_bytes = refl }
        | inr g ↦
            rw (f, g) record { heap = refl; bytes = refl; max_frames = refl; max_bytes = refl }
      ]
]

pub push_outgoing_frame-Pushed :
    (s : Sender) (f : Frame) (p : RakPriority) (receipt : Option ℕ)
    → Pushed s (push_outgoing_frame s f p receipt) (f ∷ [])
unfolding push_outgoing_frame
push_outgoing_frame-Pushed s f p receipt =
    let same = next_weight-SameQueue s p in
    let before = (next_weight s p).0.outgoing_heap in
    record {
      frames = frames_of-append before _ ∙ ap (λ h. frames_of h ++ (f ∷ [])) same.heap;
      count = length-append before _ ∙ ap (λ h. length h + 1) same.heap;
      sizes =
          queued_sizes-append before _ ∙ ap (λ h. queued_sizes h + (encoded_size f + 0)) same.heap;
      bytes = ground (arith, same.bytes);
      max_frames = same.max_frames;
      max_bytes = same.max_bytes;
    }

next_weight_index :
    (s : Sender) (p : RakPriority)
    → (next_weight s p).0.reliable_write_index ≡ s.reliable_write_index
unfolding next_weight
next_weight_index s p = elim (Bool-cases (is_idle s.outgoing_heap)) [
  | inl t ↦ rw t refl
  | inr f ↦
      elim (Bool-cases (leb s.last_min_weight (get_or s.outgoing_next_weights (as_index p) 0))) [
        | inl t ↦ rw (f, t) refl
        | inr g ↦ rw (f, g) refl
      ]
]

pub push_outgoing_frame_index :
    (s : Sender) (f : Frame) (p : RakPriority) (receipt : Option ℕ)
    → (push_outgoing_frame s f p receipt).reliable_write_index ≡ s.reliable_write_index
unfolding push_outgoing_frame
push_outgoing_frame_index s f p receipt = next_weight_index s p

-- The reliable index of the next frame, and the index after it.
abbrev pub index_for : Reliability → Sequence24 → Option Sequence24
index_for rel i = if is_reliable rel then some i else none

abbrev pub index_after : Reliability → Sequence24 → Sequence24
index_after rel i = if is_reliable rel then next i else i

-- The parts of a payload: `left` of them, from number `idx` on.
unfoldable pub parts : ℕ → PartContext → ℕ → Sequence24 → List ℕ → List Frame
parts zero c idx i payload = []
parts (suc left) c idx i payload =
    let taken = min (length payload) c.max_split_payload in
    part_of c idx (index_for c.reliability i) (take taken payload)
    ∷ parts left c (idx + 1) (index_after c.reliability i) (drop taken payload)

pub SameQueue-Pushed :
    (s s' s'' : Sender) (fs : List Frame) → SameQueue s s' → Pushed s' s'' fs → Pushed s s'' fs
SameQueue-Pushed s s' s'' fs a b = record {
  frames = b.frames ∙ ap (λ h. frames_of h ++ fs) a.heap;
  count = b.count ∙ ap (λ h. length h + length fs) a.heap;
  sizes = b.sizes ∙ ap (λ h. queued_sizes h + sum_sizes fs) a.heap;
  bytes = b.bytes ∙ ap (λ n. saturating_add n (sum_sizes fs)) a.bytes;
  max_frames = b.max_frames ∙ a.max_frames;
  max_bytes = b.max_bytes ∙ a.max_bytes;
}

reliable_index_lem :
    (s : Sender) (rel : Reliability)
    → SameQueue s (reliable_index_for s rel).0
      × ((reliable_index_for s rel).1 ≡ index_for rel s.reliable_write_index)
      × ((reliable_index_for s rel).0.reliable_write_index ≡ index_after rel s.reliable_write_index)
unfolding reliable_index_for next_reliable_index
reliable_index_lem s rel = elim (Bool-cases (is_reliable rel)) [
  | inl t ↦
      rw t (record { heap = refl; bytes = refl; max_frames = refl; max_bytes = refl }, refl, refl)
  | inr f ↦
      rw f (record { heap = refl; bytes = refl; max_frames = refl; max_bytes = refl }, refl, refl)
]

-- A frame with the next reliable index, if it has one, is queued.
pub push_indexed :
    (s : Sender) (rel : Reliability) (make : Option Sequence24 → Frame) (p : RakPriority)
    (receipt : Option ℕ)
    → let (s', i) = reliable_index_for s rel in
      let s'' = push_outgoing_frame s' (make i) p receipt in
      Pushed s s'' (make (index_for rel s.reliable_write_index) ∷ [])
      × (i ≡ index_for rel s.reliable_write_index)
      × (s''.reliable_write_index ≡ index_after rel s.reliable_write_index)
push_indexed s rel make p receipt =
    let (same, index, after) = reliable_index_lem s rel in
    let s' = (reliable_index_for s rel).0 in
    let i = (reliable_index_for s rel).1 in
    let pushed = push_outgoing_frame-Pushed s' (make i) p receipt in
    (
      subst (λ j. Pushed s (push_outgoing_frame s' (make i) p receipt) (make j ∷ [])) index
          (SameQueue-Pushed s s' _ (make i ∷ []) same pushed),
      index,
      push_outgoing_frame_index s' (make i) p receipt ∙ after,
    )

reliable_sum :
    (b : Bool) (a a' n m : ℕ)
    → a ≡ a'
    → n ≡ (if b then m else 0)
    → (if b then a else 0) + n ≡ (if b then a' + m else 0)
reliable_sum true a a' n m e q = omega (arith, e, q)
reliable_sum false a a' n m e q = omega (arith, q)

-- The loop queues the parts of the payload, and counts their bytes if they are reliable.
pub enqueue_parts-Pushed :
    (left : ℕ) (c : PartContext) (idx : ℕ) (s : Sender) (payload : List ℕ)
    → s.outgoing_queued_bytes ≤ max_u64
    → let fs = parts left c idx s.reliable_write_index payload in
      Pushed s (enqueue_parts left c idx s payload).0 fs
      × ((enqueue_parts left c idx s payload).1
          ≡ (if is_reliable c.reliability then sum_sizes fs else 0))
unfolding enqueue_parts parts
enqueue_parts-Pushed zero c idx s payload h = (
  record {
    frames = sym (append-nil (frames_of s.outgoing_heap));
    count = omega arith;
    sizes = omega arith;
    bytes = ground arith;
    max_frames = refl;
    max_bytes = refl;
  },
  ground arith,
)
enqueue_parts-Pushed (suc left) c idx s payload h =
    let taken = min (length payload) c.max_split_payload in
    let make : Option Sequence24 → Frame = λ i. part_of c idx i (take taken payload) in
    let (pushed, index, after) = push_indexed s c.reliability make c.priority c.receipt_id in
    let i = (reliable_index_for s c.reliability).1 in
    let s'' =
      push_outgoing_frame (reliable_index_for s c.reliability).0 (make i) c.priority c.receipt_id in
    let (later, sum) =
      enqueue_parts-Pushed left c (idx + 1) s'' (drop taken payload)
        (ground (arith, pushed.bytes)) in
    let first = make (index_for c.reliability s.reliable_write_index) in
    let rest : Sequence24 → List Frame = λ j. parts left c (idx + 1) j (drop taken payload) in
    (
      subst
          (λ j.
            Pushed s (enqueue_parts left c (idx + 1) s'' (drop taken payload)).0 (first ∷ rest j))
          after (Pushed-trans s s'' _ (first ∷ []) (rest s''.reliable_write_index) pushed later),
      reliable_sum (is_reliable c.reliability) (encoded_size (make i)) (encoded_size first) _ _
          (ap (λ j. encoded_size (make j)) index)
          (sum ∙ ap (λ j. if is_reliable c.reliability then sum_sizes (rest j) else 0) after),
    )
