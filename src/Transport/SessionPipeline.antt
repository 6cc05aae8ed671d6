-- ===== src/Transport/SessionPipeline.antt =====
-- src/transport/session_pipeline.rs: application frames that come before the session is connected.
-- The `out` vector is a list that is passed on; a `usize` has 64 bits.
pub mod Queue
mod Tests
use raknet_rust.Common.{
  ℕ, zero, suc, ◌+◌, ◌-◌, ◌≤◌, ◌≡◌, min, max, Bool, true, false, not, ◌||◌, ◌==◌, ltb, leb,
  if◌then◌else◌, List, [], ◌∷◌, ◌++◌, length,
}
use raknet_rust.Common.Int.{saturating_add}
use raknet_rust.Protocol.Frame.{Frame}
use raknet_rust.Session.State.{SessionState, is_connected}

pub data PipelineFrameAction : Type 0 where
  deliver queued overflow : PipelineFrameAction

pub record SessionPipeline : Type 0 where
  pub pending_unhandled : List Frame
  pub pending_unhandled_bytes : ℕ
  pub max_unhandled_frames : ℕ
  pub max_unhandled_bytes : ℕ
  pub unhandled_frames_queued : ℕ
  pub unhandled_frames_flushed : ℕ
  pub unhandled_frames_dropped : ℕ

unfoldable pub new_pipeline : ℕ → ℕ → SessionPipeline
new_pipeline max_frames max_bytes = record {
  pending_unhandled = [];
  pending_unhandled_bytes = 0;
  max_unhandled_frames = max max_frames 1;
  max_unhandled_bytes = max max_bytes 1;
  unhandled_frames_queued = 0;
  unhandled_frames_flushed = 0;
  unhandled_frames_dropped = 0;
}

queue_frame : SessionPipeline → Frame → SessionPipeline
queue_frame p frame = record p {
  pending_unhandled_bytes = saturating_add p.pending_unhandled_bytes (length frame.payload);
  pending_unhandled = p.pending_unhandled ++ (frame ∷ []);
  unhandled_frames_queued = saturating_add p.unhandled_frames_queued 1;
}

drop_frame : SessionPipeline → SessionPipeline
drop_frame p = record p { unhandled_frames_dropped = saturating_add p.unhandled_frames_dropped 1 }

is_full : SessionPipeline → Frame → Bool
is_full p frame =
    leb p.max_unhandled_frames (length p.pending_unhandled)
    || ltb p.max_unhandled_bytes (saturating_add p.pending_unhandled_bytes (length frame.payload))

-- The pipeline and the frames that are out, and what was done.
unfoldable pub route_inbound_app_frame :
    SessionPipeline
    → SessionState
    → Frame
    → List Frame
    → (SessionPipeline × List Frame) × PipelineFrameAction
unfolding queue_frame drop_frame is_full
route_inbound_app_frame p state frame out =
    if is_connected state
    then ((p, out ++ (frame ∷ [])), deliver)
    else if is_full p frame
    then ((drop_frame p, out), overflow)
    else ((queue_frame p frame, out), queued)

-- The loop of `flush_if_connected`: the bytes that are left, the frames out, and the count.
unfoldable pub flush_loop : List Frame → ℕ → List Frame → ℕ → ℕ × List Frame × ℕ
flush_loop [] bytes out flushed = (bytes, out, flushed)
flush_loop (frame ∷ pending) bytes out flushed =
    flush_loop pending (bytes - length frame.payload) (out ++ (frame ∷ []))
      (saturating_add flushed 1)

is_empty : List Frame → Bool
is_empty [] = true
is_empty (frame ∷ frames) = false

unfoldable pub flush_if_connected :
    SessionPipeline → SessionState → List Frame → (SessionPipeline × List Frame) × ℕ
unfolding is_empty
flush_if_connected p state out =
    let (bytes, out', flushed) = flush_loop p.pending_unhandled p.pending_unhandled_bytes out 0 in
    if not (is_connected state) || is_empty p.pending_unhandled then ((p, out), 0) else (
      (
        record p {
          pending_unhandled = [];
          pending_unhandled_bytes = bytes;
          unhandled_frames_flushed = saturating_add p.unhandled_frames_flushed flushed;
        },
        out',
      ),
      flushed,
    )
