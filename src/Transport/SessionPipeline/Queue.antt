-- ===== src/Transport/SessionPipeline/Queue.antt =====
-- What is queued, within which bounds, and what is flushed.
use raknet_rust.Common.{
  ℕ, ◌+◌, ◌-◌, ◌≤◌, ◌<◌, ◌≡◌, refl, sym, ◌∙◌, ap, subst, true, false, List, [], ◌∷◌, ◌++◌, length,
  length-append, append_assoc, append-nil, arith, Bool-cases, inl, inr,
}
use raknet_rust.Common.Int.{max_u64, saturating_add}
use raknet_rust.Protocol.Frame.{Frame}
use raknet_rust.Session.State.{SessionState, is_connected}
use raknet_rust.Transport.SessionPipeline.{
  PipelineFrameAction, deliver, queued, overflow, SessionPipeline, new_pipeline, queue_frame,
  drop_frame, is_full, route_inbound_app_frame, flush_loop, flush_if_connected, is_empty,
}

abbrev pub sum_payloads : List Frame → ℕ
sum_payloads [] = 0
sum_payloads (f ∷ fs) = length f.payload + sum_payloads fs

-- The counted bytes are those of the frames that wait, and both limits are kept. A vector is never as
-- long as `usize::MAX`, and a byte limit fits a `usize`.
pub record IsPipeline (p : SessionPipeline) : Type 0 where
  pub counted : p.pending_unhandled_bytes ≡ sum_payloads p.pending_unhandled
  pub few : length p.pending_unhandled ≤ p.max_unhandled_frames
  pub small : p.pending_unhandled_bytes ≤ p.max_unhandled_bytes
  pub frame_limit : p.max_unhandled_frames < max_u64
  pub byte_limit : p.max_unhandled_bytes < max_u64

pub new_pipeline-IsPipeline :
    (max_frames max_bytes : ℕ)
    → max_frames < max_u64
    → max_bytes < max_u64
    → IsPipeline (new_pipeline max_frames max_bytes)
unfolding new_pipeline
new_pipeline-IsPipeline max_frames max_bytes h k = record {
  counted = refl;
  few = ground arith;
  small = ground arith;
  frame_limit = ground arith;
  byte_limit = ground arith;
}

sum_payloads-append :
    (xs ys : List Frame) → sum_payloads (xs ++ ys) ≡ sum_payloads xs + sum_payloads ys
sum_payloads-append [] ys = omega arith
sum_payloads-append (x ∷ xs) ys = omega (arith, sum_payloads-append xs ys)

queue_frame-IsPipeline :
    (p : SessionPipeline) (frame : Frame)
    → IsPipeline p
    → is_full p frame ≡ false
    → IsPipeline (queue_frame p frame)
unfolding queue_frame is_full
queue_frame-IsPipeline p frame v f =
    let n = length-append p.pending_unhandled (frame ∷ []) in
    let s = sum_payloads-append p.pending_unhandled (frame ∷ []) in
    record {
      counted = ground (arith, s, v.counted, v.byte_limit, f);
      few = ground (arith, n, f);
      small = ground (arith, f);
      frame_limit = v.frame_limit;
      byte_limit = v.byte_limit;
    }

drop_frame-IsPipeline : (p : SessionPipeline) → IsPipeline p → IsPipeline (drop_frame p)
unfolding drop_frame
drop_frame-IsPipeline p v = record {
  counted = v.counted;
  few = v.few;
  small = v.small;
  frame_limit = v.frame_limit;
  byte_limit = v.byte_limit;
}

is_empty_lem : (frames : List Frame) → is_empty frames ≡ true → frames ≡ []
unfolding is_empty
is_empty_lem [] e = refl
is_empty_lem (f ∷ frames) e = cc

-- Whatever frame comes in whatever state, the pipeline keeps its limits and its count of bytes.
pub route_inbound_app_frame-IsPipeline :
    (p : SessionPipeline) (state : SessionState) (frame : Frame) (out : List Frame)
    → IsPipeline p
    → IsPipeline (route_inbound_app_frame p state frame out).0.0
unfolding route_inbound_app_frame
route_inbound_app_frame-IsPipeline p state frame out v = elim (Bool-cases (is_connected state)) [
  | inl c ↦ rw c v
  | inr c ↦ elim (Bool-cases (is_full p frame)) [
    | inl f ↦ rw (c, f) (drop_frame-IsPipeline p v)
    | inr f ↦ rw (c, f) (queue_frame-IsPipeline p frame v f)
  ]
]

triple :
    {a b : ℕ} {xs ys : List Frame} {m n : ℕ}
    → a ≡ b
    → xs ≡ ys
    → m ≡ n
    → Path (ℕ × List Frame × ℕ) (a, xs, m) (b, ys, n)
triple e f g = rw (e, f, g) refl

flush_loop_lem :
    (pending : List Frame) (bytes : ℕ) (out : List Frame) (flushed : ℕ)
    → bytes ≡ sum_payloads pending
    → flushed + length pending ≤ max_u64
    → flush_loop pending bytes out flushed ≡ (0, out ++ pending, flushed + length pending)
unfolding flush_loop
flush_loop_lem [] bytes out flushed h k = triple h (sym (append-nil out)) (omega arith)
flush_loop_lem (f ∷ pending) bytes out flushed h k =
    flush_loop_lem pending (bytes - length f.payload) (out ++ (f ∷ [])) (saturating_add flushed 1)
      (omega (arith, h)) (omega (arith, k))
    ∙ triple refl (append_assoc out (f ∷ []) pending) (omega (arith, k))

-- When the session is connected, every frame that waits is put out behind those that are out already,
-- in the order of arrival; none is left, no byte is counted any more, and the answer is their number.
pub flush_if_connected_lem :
    (p : SessionPipeline) (state : SessionState) (out : List Frame)
    → IsPipeline p
    → is_connected state ≡ true
    → let after = flush_if_connected p state out in
      (after.0.1 ≡ out ++ p.pending_unhandled)
      × (after.0.0.pending_unhandled ≡ [])
      × (after.0.0.pending_unhandled_bytes ≡ 0)
      × (after.1 ≡ length p.pending_unhandled)
unfolding flush_if_connected
flush_if_connected_lem p state out v c =
    let e =
      flush_loop_lem p.pending_unhandled p.pending_unhandled_bytes out 0 v.counted
        (omega (arith, v.few, v.frame_limit)) in
    elim (Bool-cases (is_empty p.pending_unhandled)) [
      | inr f ↦ rw (c, f, e) (refl, refl, refl, omega arith)
      | inl f ↦
          let z = is_empty_lem p.pending_unhandled f in
          rw (c, f)
            (
              sym (ap (λ t. out ++ t) z ∙ append-nil out),
              z,
              v.counted ∙ ap sum_payloads z,
              sym (ap length z),
            )
    ]

-- The frames that are queued: this one, if it was, and those of the rest.
after :
    Frame
    → (SessionPipeline × List Frame) × PipelineFrameAction
    → (SessionPipeline → SessionPipeline × List Frame)
    → SessionPipeline × List Frame
after frame ((p, out), queued) rest = let (q, kept) = rest p in (q, frame ∷ kept)
after frame ((p, out), deliver) rest = rest p
after frame ((p, out), overflow) rest = rest p

-- The frames that come one after the other in one state, and those of them that are queued.
pub route_all : SessionPipeline → SessionState → List Frame → SessionPipeline × List Frame
unfolding after
route_all p state [] = (p, [])
route_all p state (frame ∷ frames) =
    after frame (route_inbound_app_frame p state frame []) (λ q. route_all q state frames)

route_overflow :
    (p : SessionPipeline) (state : SessionState) (frame : Frame)
    → is_connected state ≡ false
    → is_full p frame ≡ true
    → route_inbound_app_frame p state frame [] ≡ ((drop_frame p, []), overflow)
unfolding route_inbound_app_frame
route_overflow p state frame c f = rw (c, f) refl

route_queued :
    (p : SessionPipeline) (state : SessionState) (frame : Frame)
    → is_connected state ≡ false
    → is_full p frame ≡ false
    → route_inbound_app_frame p state frame [] ≡ ((queue_frame p frame, []), queued)
unfolding route_inbound_app_frame
route_queued p state frame c f = rw (c, f) refl

-- What waits behind `waiting` is what was queued.
abbrev Appended : List Frame → SessionPipeline × List Frame → Type 0
Appended waiting (p, kept) = IsPipeline p × (p.pending_unhandled ≡ waiting ++ kept)

route_all_lem :
    (p : SessionPipeline) (state : SessionState) (frames : List Frame)
    → IsPipeline p
    → is_connected state ≡ false
    → Appended p.pending_unhandled (route_all p state frames)
unfolding route_all after queue_frame drop_frame
route_all_lem p state [] v c = (v, sym (append-nil p.pending_unhandled))
route_all_lem p state (frame ∷ frames) v c = elim (Bool-cases (is_full p frame)) [
  | inl f ↦
      subst (λ t. Appended p.pending_unhandled (after frame t (λ q. route_all q state frames)))
        (sym (route_overflow p state frame c f))
        (route_all_lem (drop_frame p) state frames (drop_frame-IsPipeline p v) c)
  | inr f ↦
      let (w, e) =
        route_all_lem (queue_frame p frame) state frames (queue_frame-IsPipeline p frame v f) c in
      subst (λ t. Appended p.pending_unhandled (after frame t (λ q. route_all q state frames)))
        (sym (route_queued p state frame c f))
        (
          w,
          e
              ∙ append_assoc p.pending_unhandled (frame ∷ [])
                  (route_all (queue_frame p frame) state frames).1,
        )
]

-- Frames come while the session is not yet connected, and then it is: what is put out is what waited
-- before, and behind it, in the order in which they came, the frames that were queued and not refused.
pub flush_if_connected-route_all :
    (p : SessionPipeline) (state later : SessionState) (frames out : List Frame)
    → IsPipeline p
    → is_connected state ≡ false
    → is_connected later ≡ true
    → (flush_if_connected (route_all p state frames).0 later out).0.1
      ≡ out ++ (p.pending_unhandled ++ (route_all p state frames).1)
flush_if_connected-route_all p state later frames out v c d =
    let (w, e) = route_all_lem p state frames v c in
    (flush_if_connected_lem (route_all p state frames).0 later out w d).0 ∙ ap (λ t. out ++ t) e
