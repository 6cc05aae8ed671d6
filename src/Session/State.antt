-- ===== src/Session/State.antt =====
-- src/session/state.rs and `Session::transition_to`: the states of a session.
mod Tests
use raknet_rust.Common.{
  ℕ, zero, suc, ◌≤◌, ◌<◌, ◌≡◌, ◌≢◌, refl, Bool, true, false, ◌||◌, ◌==◌, ltb, if◌then◌else◌, List,
  [], ◌∷◌, ◌⊎◌, ◌↔◌, inl, inr, arith,
}

pub data SessionState : Type 0 where
  offline req1_recv reply1_sent req2_recv reply2_sent conn_req_recv : SessionState
  conn_req_accepted_sent new_incoming_recv connected closing closed : SessionState

-- The order of declaration, which `self == next` compares.
abbrev pub index : SessionState → ℕ
index offline = 0
index req1_recv = 1
index reply1_sent = 2
index req2_recv = 3
index reply2_sent = 4
index conn_req_recv = 5
index conn_req_accepted_sent = 6
index new_incoming_recv = 7
index connected = 8
index closing = 9
index closed = 10

-- `state == SessionState::Connected`.
abbrev pub is_connected : SessionState → Bool
is_connected connected = true
is_connected _ = false

-- The pairs of the `matches!`.
abbrev is_listed : SessionState → SessionState → Bool
is_listed offline req1_recv = true
is_listed req1_recv reply1_sent = true
is_listed reply1_sent req2_recv = true
is_listed req2_recv reply2_sent = true
is_listed reply2_sent conn_req_recv = true
is_listed conn_req_recv conn_req_accepted_sent = true
is_listed conn_req_accepted_sent new_incoming_recv = true
is_listed new_incoming_recv connected = true
is_listed connected closing = true
is_listed closing closed = true
is_listed _ _ = false

unfoldable pub can_transition_to : SessionState → SessionState → Bool
can_transition_to s next = index s == index next || is_listed s next

-- The new state, and whether the request was granted.
unfoldable pub transition_to : SessionState → SessionState → SessionState × Bool
unfolding can_transition_to
transition_to s next = if can_transition_to s next then (next, true) else (s, false)

unfoldable pub transitions : SessionState → List SessionState → SessionState
transitions s [] = s
transitions s (next ∷ rest) = transitions (transition_to s next).0 rest

-- A request is granted exactly for the same state or the one that follows it.
pub can_transition_to_iff :
    (s t : SessionState)
    → (can_transition_to s t ≡ true) ↔ ((index t ≡ index s) ⊎ (index t ≡ suc (index s)))
unfolding can_transition_to
can_transition_to_iff offline t = (λ h. ground arith, λ h. ground arith)
can_transition_to_iff _ t = (λ h. ground arith, λ h. ground arith)

transition_to_mono :
    (s t : SessionState)
    → (index s ≤ index (transition_to s t).0) × (index (transition_to s t).0 ≤ suc (index s))
unfolding transition_to
transition_to_mono s t = ground (arith, can_transition_to_iff s t)

abbrev pub Member : SessionState → List SessionState → Type 0
Member s [] = ⊥
Member s (t ∷ ts) = (s ≡ t) ⊎ Member s ts

index-injective : (s t : SessionState) → index s ≡ index t → s ≡ t
index-injective offline t e = ground arith
index-injective _ t e = ground arith

transition_to_hits : (s t : SessionState) → (transition_to s t).0 ≢ s → (transition_to s t).0 ≡ t
unfolding transition_to
transition_to_hits s t h = ground arith

transitions_lem :
    (s : SessionState) (ts : List SessionState) (m : SessionState)
    → (index s ≤ index (transitions s ts))
      × (index s < index m → index m ≤ index (transitions s ts) → Member m ts)
unfolding transitions
transitions_lem s [] m = (omega arith, λ h k. absurd (omega arith))
transitions_lem s (t ∷ ts) m = ground (
  arith,
  transition_to_mono s t,
  transition_to_hits s t,
  index-injective m t,
  transitions_lem (transition_to s t).0 ts m,
)

-- No history of requests takes a session back.
pub transitions_mono :
    (s : SessionState) (ts : List SessionState) → index s ≤ index (transitions s ts)
transitions_mono s ts = (transitions_lem s ts s).0

-- No history of requests skips a state: each state behind the first and up to the last one that was
-- reached was itself requested.
pub transitions_visit :
    (s : SessionState) (ts : List SessionState) (m : SessionState)
    → index s < index m
    → index m ≤ index (transitions s ts)
    → Member m ts
transitions_visit s ts m = (transitions_lem s ts m).1
