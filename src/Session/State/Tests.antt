-- ===== src/Session/State/Tests.antt =====
-- The theorem on histories of states at a concrete history.
use raknet_rust.Common.{◌≡◌, refl, arith, List, [], ◌∷◌}
use raknet_rust.Session.State.{
  SessionState, offline, req1_recv, reply1_sent, connected, transitions, Member, transitions_visit,
  transition_to, can_transition_to,
}

-- The request for `connected` comes too early and is refused.
abbrev requests : List SessionState
requests = req1_recv ∷ connected ∷ reply1_sent ∷ []

ends_in : transitions offline requests ≡ reply1_sent
unfolding transitions transition_to can_transition_to
ends_in = refl

transitions_visit_first : Member req1_recv requests
transitions_visit_first =
    transitions_visit offline requests req1_recv (omega arith) (rw ends_in (omega arith))
