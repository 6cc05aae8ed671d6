-- ===== src/Transport/SessionPipeline/Tests.antt =====
-- The theorems on the pipeline at a concrete session.
use raknet_rust.Common.{◌≡◌, refl, List, [], ◌∷◌, ◌++◌, arith}
use raknet_rust.Protocol.Frame.{Frame}
use raknet_rust.Protocol.Frame.Samples.{ordered_frame}
use raknet_rust.Session.State.{conn_req_recv, connected}
use raknet_rust.Transport.SessionPipeline.{SessionPipeline, new_pipeline, flush_if_connected}
use raknet_rust.Transport.SessionPipeline.Queue.{
  new_pipeline-IsPipeline, route_all, flush_if_connected-route_all,
}

abbrev pipeline : SessionPipeline
pipeline = new_pipeline 2 100

-- The third frame is refused.
abbrev early : List Frame
early = ordered_frame 0 0 (1 ∷ []) ∷ ordered_frame 1 0 (2 ∷ []) ∷ ordered_frame 2 0 (3 ∷ []) ∷ []

flush_if_connected-route_all-early :
    (flush_if_connected (route_all pipeline conn_req_recv early).0 connected []).0.1
    ≡ [] ++ (pipeline.pending_unhandled ++ (route_all pipeline conn_req_recv early).1)
flush_if_connected-route_all-early =
    flush_if_connected-route_all pipeline conn_req_recv connected early []
      (new_pipeline-IsPipeline 2 100 (omega arith) (omega arith)) refl refl
