-- ===== src/Session/Dispatch/Whole.antt =====
-- The datagram that is built, and what becomes of the queue and of the sent datagrams.
use raknet_rust.Common.{
  not, ◌&&◌, ℕ, ◌+◌, ◌≤◌, ◌<◌, ◌≡◌, ◌⊎◌, refl, sym, ap, ◌∙◌, subst, inl, inr, true, false, ◌||◌,
  ◌==◌, List, [], ◌∷◌, ◌++◌, length, length-append, All, none, some, Bool-cases, arith,
}
use raknet_rust.Common.Int.{max_u64}
use raknet_rust.Common.Map.{lookup}
use raknet_rust.Common.Floats.{Floats}
use raknet_rust.Protocol.Constants.{raknet_datagram_header_size}
use raknet_rust.Protocol.Sequence24.{Sequence24}
use raknet_rust.Protocol.Reliability.{is_reliable}
use raknet_rust.Protocol.Frame
use raknet_rust.Protocol.Frame.{Frame, reliability_of}
use raknet_rust.Protocol.Datagram.{Datagram, frames, sum_frames, payload_bytes, encoded_size}
use raknet_rust.Session.Outgoing.{QueuedFrame, Sender, is_idle}
use raknet_rust.Session.Outgoing.Parts.{frames_of, queued_sizes, queued_sizes-append}
use raknet_rust.Session.Send.Limits.{IsSender}
use raknet_rust.Session.Sent.{
  TrackedDatagram, Sent, insert_sent, has_reliable, has_ack_receipt, is_empty,
  next_datagram_sequence, track_sent_reliable_datagram,
}
use raknet_rust.Session.Dispatch.{
  MinHeap, Draft, fits, empty_draft, Built, track, finish, no_frames, build_data_datagram,
}
use raknet_rust.Session.Dispatch.Pick.{Same, Same-refl, All-split}
use raknet_rust.Session.Dispatch.Build.{AreLightest, any_reliable, window_open, Filled, fill-Filled}

-- The fields of an entry of the queue are those of its frame.
pub record IsQueued (q : QueuedFrame) : Type 0 where
  pub size : q.encoded_size ≡ Frame.encoded_size q.frame
  pub reliable : q.is_reliable ≡ is_reliable (reliability_of q.frame)

sum_frames_lem :
    (qs : List QueuedFrame) → All IsQueued qs → sum_frames (frames_of qs) ≡ queued_sizes qs
sum_frames_lem [] h = refl
sum_frames_lem (q ∷ qs) h = omega (arith, h.0.size, sum_frames_lem qs h.1)

any_reliable_lem :
    (qs : List QueuedFrame)
    → All IsQueued qs
    → has_reliable (frames (frames_of qs)) ≡ any_reliable qs
any_reliable_lem [] h = refl
any_reliable_lem (q ∷ qs) h =
    let first = h.0.reliable in ground (arith, first, any_reliable_lem qs h.1)

lookup-insert_sent :
    (k : Sequence24) (v : TrackedDatagram) (m : List (ℕ × TrackedDatagram))
    → lookup k (insert_sent k v m) ≡ some v
unfolding lookup insert_sent
lookup-insert_sent k v [] = ground arith
lookup-insert_sent k v ((j, w) ∷ m) = ground (arith, lookup-insert_sent k v m)

pub IsRemembered : {F : Type 0} → Sent F → Datagram → Type 0
IsRemembered sent g =
    (v : TrackedDatagram) × (lookup g.header.sequence sent.sent_datagrams ≡ some v)
    × (v.datagram ≡ g)

track_sent_reliable_datagram-IsRemembered :
    {F : Type 0} (sent : Sent F) (g : Datagram) (now : ℕ) (ids : List ℕ)
    → has_reliable g.payload ≡ true
    → IsRemembered (track_sent_reliable_datagram sent g now ids) g
unfolding track_sent_reliable_datagram IsRemembered
track_sent_reliable_datagram-IsRemembered sent g now ids t =
    rw t (_, lookup-insert_sent g.header.sequence _ sent.sent_datagrams, refl)

taken_cases :
    (qs : List QueuedFrame)
    → (qs ≡ []) ⊎ ((x : QueuedFrame) × (xs : List QueuedFrame) × (qs ≡ x ∷ xs))
taken_cases [] = inl refl
taken_cases (x ∷ xs) = inr (x, xs, refl)

module _ ⦃h : MinHeap⦄ {F : Type 0} ⦃d : Floats F⦄ where
  -- No datagram, because nothing is left of the budget or no frame of the queue fits.
  pub record IsNothing (sent : Sent F) (s : Sender) (remaining : ℕ) (b : Built F) : Type 0 where
    pub datagram : b.datagram ≡ none
    pub unchanged : b.sent ≡ sent
    pub reason :
        (remaining ≡ 0)
        ⊎ All
            (λ p. fits s.mtu (window_open sent) raknet_datagram_header_size remaining p ≡ false)
            s.outgoing_heap

  -- A datagram of the frames `taken`.
  pub record IsSomething (sent : Sent F) (s : Sender) (taken : List QueuedFrame) (b : Built F)
      : Type 0 where
    pub value : Datagram
    pub datagram : b.datagram ≡ some value
    pub payload : value.payload ≡ frames (frames_of taken)
    pub sequence : value.header.sequence ≡ sent.datagram_write_index
    pub size : encoded_size value ≤ s.mtu
    pub bytes : encoded_size value ≡ raknet_datagram_header_size + queued_sizes taken
    pub window : any_reliable taken ≡ true → window_open sent ≡ true
    pub congestion : b.sent.congestion ≡ sent.congestion
    pub remembered : any_reliable taken ≡ true → IsRemembered b.sent value

  pub record IsBuilt (sent : Sent F) (s : Sender) (remaining : ℕ) (b : Built F) : Type 1 where
    pub taken : List QueuedFrame
    pub same : Same (taken ++ b.sender.outgoing_heap) s.outgoing_heap
    pub lightest :
        AreLightest s.mtu
          (window_open sent)
          false
          raknet_datagram_header_size
          remaining
          taken
          b.sender.outgoing_heap
    pub budget : b.remaining + queued_sizes taken ≡ remaining
    pub sender : IsSender b.sender
    pub mtu : b.sender.mtu ≡ s.mtu
    pub outcome : IsNothing sent s remaining b ⊎ IsSomething sent s taken b

  Filled-IsSender :
      (sent : Sent F) (s s' : Sender) (g g' : Draft)
      → IsSender s
      → Filled sent s g s' g'
      → IsSender s'
  Filled-IsSender sent s s' g g' v f =
      let held = f.same.sizes in
      let count = f.same.count in
      let both = queued_sizes-append f.taken s'.outgoing_heap in
      let all = length-append f.taken s'.outgoing_heap in
      let accounted = v.accounted in
      let limit = v.bytes in
      let frames = v.frames in
      record {
        some_frames = omega (arith, f.max_frames, v.some_frames);
        some_bytes = omega (arith, f.max_bytes, v.some_bytes);
        frame_limit = omega (arith, f.max_frames, v.frame_limit);
        byte_limit = omega (arith, f.max_bytes, v.byte_limit);
        frames = omega (arith, f.max_frames);
        bytes = omega (arith, f.max_bytes, f.bytes);
        accounted = omega (arith, f.bytes);
      }

  nothing_lem :
      (sent : Sent F) (s s' : Sender) (g' : Draft) (now remaining : ℕ)
      → (f : Filled sent s (empty_draft remaining) s' g') → f.taken ≡ []
      → IsNothing sent s remaining (finish sent s' g' now)
  unfolding finish
  nothing_lem sent s s' g' now remaining f e =
      let none_left : no_frames g'.frames ≡ true = ap no_frames (f.frames ∙ ap frames_of e) in
      let size : g'.datagram_size ≡ raknet_datagram_header_size =
        f.size ∙ ap (λ qs. raknet_datagram_header_size + queued_sizes qs) e in
      let left : g'.remaining ≡ remaining = omega (arith, f.budget, ap queued_sizes e) in
      let reliable : g'.has_reliable ≡ false = f.reliable ∙ ap any_reliable e in
      let heap : Same s'.outgoing_heap s.outgoing_heap =
        subst (λ qs. Same (qs ++ s'.outgoing_heap) s.outgoing_heap) e f.same in
      let stops = (heap.all _).0 f.stops in
      rw none_left record {
        datagram = refl;
        unchanged = refl;
        reason = inr (rw (size, left, reliable) at stops);
      }

  track_congestion :
      (sent : Sent F) (g : Datagram) (draft : Draft) (now : ℕ)
      → (track sent g draft now).congestion ≡ sent.congestion
  unfolding track track_sent_reliable_datagram
  track_congestion sent g draft now =
      elim (Bool-cases (draft.has_reliable || not (is_empty draft.receipt_ids))) [
        | inr f ↦ rw f refl
        | inl t ↦
            let reliable = has_reliable g.payload in
            let receipt = has_ack_receipt g.payload in
            rw t (elim (Bool-cases (not reliable && not receipt && is_empty draft.receipt_ids)) [
              | inl n ↦ rw n refl
              | inr m ↦ rw m refl
            ])
      ]

  something_lem :
      (sent : Sent F) (s s' : Sender) (g' : Draft) (now remaining : ℕ) (q : QueuedFrame)
      (qs : List QueuedFrame)
      → All IsQueued s.outgoing_heap
      → raknet_datagram_header_size ≤ s.mtu
      → (f : Filled sent s (empty_draft remaining) s' g') → f.taken ≡ q ∷ qs
      → IsSomething sent s f.taken (finish sent s' g' now)
  unfolding finish next_datagram_sequence
  something_lem sent s s' g' now remaining q qs h m f e =
      let some_left : no_frames g'.frames ≡ false = ap no_frames (f.frames ∙ ap frames_of e) in
      let queued = (All-split IsQueued f.taken _ ((f.same.all IsQueued).1 h)).0 in
      let size = sum_frames_lem f.taken queued in
      let known = any_reliable_lem f.taken queued in
      let fit = f.fit m in
      rw some_left record {
        value = _;
        datagram = refl;
        payload = ap frames f.frames;
        sequence = refl;
        size =
            unfold encoded_size payload_bytes in
            omega (arith, ap sum_frames f.frames, size, f.size, fit);
        bytes = unfold encoded_size payload_bytes in omega (arith, ap sum_frames f.frames, size);
        window = λ t. f.allowed (f.reliable ∙ t);
        congestion = track_congestion _ _ g' now;
        remembered = λ t.
            let sent_reliable : has_reliable (frames g'.frames) ≡ true =
              ap (λ fs. has_reliable (frames fs)) f.frames ∙ known ∙ t in
            unfold track in
            rw (f.reliable ∙ t)
              (track_sent_reliable_datagram-IsRemembered _ _ now g'.receipt_ids sent_reliable);
      }

  idle_lem :
      (sent : Sent F) (s : Sender) (remaining : ℕ)
      → (is_idle s.outgoing_heap || remaining == 0) ≡ true
      → (remaining ≡ 0)
        ⊎ All
            (λ p. fits s.mtu (window_open sent) raknet_datagram_header_size remaining p ≡ false)
            s.outgoing_heap
  idle_lem sent s remaining t = elim (Bool-cases (remaining == 0)) [
    | inl z ↦ inl (ground arith)
    | inr n ↦ elim (taken_cases s.outgoing_heap) [
      | inl e ↦ inr (rw e tt)
      | inr (x, xs, e) ↦
          let busy : is_idle s.outgoing_heap ≡ false = ap is_idle e in absurd (ground arith)
    ]
  ]

  finish_sender :
      (sent : Sent F) (s : Sender) (g : Draft) (now : ℕ) → (finish sent s g now).sender ≡ s
  unfolding finish
  finish_sender sent s g now = elim (Bool-cases (no_frames g.frames)) [
    | inl t ↦ rw t refl
    | inr f ↦ rw f refl
  ]

  finish_remaining :
      (sent : Sent F) (s : Sender) (g : Draft) (now : ℕ)
      → (finish sent s g now).remaining ≡ g.remaining
  unfolding finish
  finish_remaining sent s g now = elim (Bool-cases (no_frames g.frames)) [
    | inl t ↦ rw t refl
    | inr f ↦ rw f refl
  ]

  finish-outcome :
      (sent : Sent F) (s s' : Sender) (g' : Draft) (now remaining : ℕ)
      → All IsQueued s.outgoing_heap
      → raknet_datagram_header_size ≤ s.mtu
      → (f : Filled sent s (empty_draft remaining) s' g')
      → IsNothing sent s remaining (finish sent s' g' now)
        ⊎ IsSomething sent s f.taken (finish sent s' g' now)
  finish-outcome sent s s' g' now remaining q m f = elim (taken_cases f.taken) [
    | inl e ↦ inl (nothing_lem sent s s' g' now remaining f e)
    | inr (x, xs, e) ↦ inr (something_lem sent s s' g' now remaining x xs q m f e)
  ]

  -- The loop ends. The datagram holds frames of the queue, in this order: each one, when its turn came, was
  -- the lightest that fitted the MTU and the budget and was allowed to go. The others stay in the queue,
  -- which keeps its limits. The datagram fits the MTU, and its frames are paid from the budget. Reliable
  -- frames go out only if the congestion window has room for the datagram, and then it is remembered
  -- under its number. If there is none, the budget is used up or no frame fits.
  pub build_data_datagram-IsBuilt :
      (sent : Sent F) (s : Sender) (now remaining : ℕ)
      → IsSender s
      → All IsQueued s.outgoing_heap
      → raknet_datagram_header_size ≤ s.mtu
      → s.mtu < max_u64
      → (b : Built F) × (build_data_datagram sent s now remaining ≡ some b)
        × IsBuilt sent s remaining b
  unfolding build_data_datagram
  build_data_datagram-IsBuilt sent s now remaining v q m l =
      elim (Bool-cases (is_idle s.outgoing_heap || remaining == 0)) [
        | inl t ↦ (
          record { sender = s; sent = sent; remaining = remaining; datagram = none },
          rw (build_data_datagram, t) refl,
          record {
            taken = [];
            same = Same-refl s.outgoing_heap;
            lightest = tt;
            budget = omega arith;
            sender = v;
            mtu = refl;
            outcome = inl (record {
              datagram = refl;
              unchanged = refl;
              reason = idle_lem sent s remaining t;
            });
          },
        )
        | inr n ↦
            let ((s', g'), e, f) =
              fill-Filled (length s.outgoing_heap + 1) sent s (empty_draft remaining) (omega arith)
                l in
            (
              finish sent s' g' now,
              rw (build_data_datagram, n, e) refl,
              record {
                taken = f.taken;
                same =
                    subst (λ b. Same (f.taken ++ b.outgoing_heap) s.outgoing_heap)
                      (sym (finish_sender sent s' g' now)) f.same;
                lightest =
                    subst
                      (λ b.
                        AreLightest s.mtu (window_open sent) false raknet_datagram_header_size
                          remaining f.taken b.outgoing_heap)
                      (sym (finish_sender sent s' g' now)) f.lightest;
                budget = omega (arith, f.budget, finish_remaining sent s' g' now);
                sender =
                    subst IsSender (sym (finish_sender sent s' g' now))
                      (Filled-IsSender sent s s' _ g' v f);
                mtu = ap (λ b. b.mtu) (finish_sender sent s' g' now) ∙ f.mtu;
                outcome = finish-outcome sent s s' g' now remaining q m f;
              },
            )
      ]
