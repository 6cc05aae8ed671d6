-- ===== src/Session/Congestion/Tests.antt =====
-- The theorem on the congestion window at a concrete history, in numbers of thousandths.
use raknet_rust.Common.{◌≡◌, refl, true, List, [], ◌∷◌}
use raknet_rust.Common.Floats.{thousandths, ℕ-IsFloats}
use raknet_rust.Session.Congestion.Samples.{fresh}
use raknet_rust.Session.Congestion.{can_emit_new_reliable_datagram}
use raknet_rust.Session.Congestion.Window.{
  Signal, acked, timed_out, refused, IsCongestion, react_all, react_all-IsCongestion,
}

fresh-IsCongestion : IsCongestion fresh
fresh-IsCongestion = record {
  one = refl;
  limits = refl;
  low = refl;
  high = refl;
  on_nack = refl;
  timeout = refl;
}

abbrev signals : List Signal
signals = acked ∷ refused 9 ∷ acked ∷ timed_out 70 ∷ []

react_all-IsCongestion_four :
    IsCongestion (react_all fresh signals)
    × (can_emit_new_reliable_datagram (react_all fresh signals) 0 ≡ true)
react_all-IsCongestion_four = react_all-IsCongestion ℕ-IsFloats fresh signals fresh-IsCongestion
