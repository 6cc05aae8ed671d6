-- ===== src/Session/Run/Tests.antt =====
-- The life of a session at the default settings: a payload goes out and is acknowledged, and a frame
-- comes in.
use raknet_rust.Common.{max, ℕ, ◌≤◌, ◌≡◌, refl, List, [], ◌∷◌, some, All, ok, arith}
use raknet_rust.Common.Floats.{thousandths, ℕ-IsFloats}
use raknet_rust.Protocol.Reliability.{reliable_ordered}
use raknet_rust.Protocol.Ack.{range_of}
use raknet_rust.Protocol.Datagram.{datagram_of, frames, ack}
use raknet_rust.Protocol.Frame.Samples.{ordered_frame}
use raknet_rust.Session.Outgoing.{high}
use raknet_rust.Session.Send.{SoftLimit}
use raknet_rust.Session.Congestion.{nanoseconds}
use raknet_rust.Session.Dispatch.Reference.{first_least}
use raknet_rust.Session.Tick.{Session}
use raknet_rust.Session.Tunables.{congestion_settings, default}
use raknet_rust.Session.Tunables.Checks.{
  check_flush, check_limits, check_rto, check_window, check_reaction, check_pacing, check_queue,
  validate,
}
use raknet_rust.Session.Start.{with_tunables}
use raknet_rust.Session.Run.{Call, ingest, queue, process, tick, run}
use raknet_rust.Session.Run.Safe.{IsCall, IsAlive, run-with_tunables}

-- The whole limit.
soft-pos_whole : (n : ℕ) → 1 ≤ max n 1
soft-pos_whole n = ground arith

soft-le_whole : (n : ℕ) → 1 ≤ n → max n 1 ≤ n
soft-le_whole n h = ground arith

instance abbrev whole : SoftLimit
whole = record { soft = λ n. max n 1; soft-pos = soft-pos_whole; soft-le = soft-le_whole }

abbrev calls : List Call
calls =
    queue (1 ∷ 2 ∷ 3 ∷ []) reliable_ordered 0 high (some 9)
    ∷ tick 1_000_000 4 4000 4 4000
    ∷ ingest (datagram_of 0xC0 0 (ack record { ranges = range_of 0 0 ∷ [] })) 2_000_000
    ∷ process 2_000_000
    ∷ ingest (datagram_of 0x84 0 (frames (ordered_frame 0 0 (7 ∷ []) ∷ []))) 3_000_000
    ∷ []

calls-IsCall : All IsCall calls
calls-IsCall = (
  tt,
  (
    tt,
    (
      (omega arith, tt, ((omega arith, omega arith), tt)),
      (tt, ((omega arith, (omega arith, tt), tt), tt)),
    ),
  ),
)

accepted : validate {F = ℕ} default ≡ ok tt
unfolding validate check_flush check_limits check_rto check_window check_reaction check_pacing
    check_queue default congestion_settings
accepted = refl

run-with_tunables_five :
    (s : Session ℕ) × (s' : Session ℕ) × (with_tunables 1400 default 0 ≡ some s)
    × (run s calls ≡ some s')
    × IsAlive 1400 s'
run-with_tunables_five =
    run-with_tunables ℕ-IsFloats 1400 default 0 calls accepted (unfold default in omega arith)
      (unfold default in omega arith) (omega arith) (omega arith) calls-IsCall
