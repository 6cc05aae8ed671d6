-- ===== src/Protocol/Reliability.antt =====
-- src/protocol/reliability.rs: the eight reliabilities, their table of properties and their byte.
use raknet_rust.Common.{
  ℕ, ◌≤◌, ◌<◌, ◌≡◌, refl, Bool, true, false, ◌==◌, if◌then◌else◌, List, [], ◌∷◌, ◌++◌, Result, ok,
  err, ◌>>=◌, arith, get_or,
}
use raknet_rust.Protocol.Errors.{DecodeError, unknown_reliability}
use raknet_rust.Protocol.Primitives.{Decoded, decode_u8}

pub data Reliability : Type 0 where
  unreliable unreliable_sequenced reliable reliable_ordered reliable_sequenced : Reliability
  unreliable_with_ack_receipt reliable_with_ack_receipt : Reliability
  reliable_ordered_with_ack_receipt : Reliability

pub record ReliabilityProps : Type 0 where
  pub reliable : Bool
  pub ordered : Bool
  pub sequenced : Bool
  pub with_ack_receipt : Bool

abbrev props_of : Bool → Bool → Bool → Bool → ReliabilityProps
props_of r o s a = record { reliable = r; ordered = o; sequenced = s; with_ack_receipt = a }

abbrev reliability_props : List ReliabilityProps
reliability_props =
    props_of false false false false
    ∷ props_of false false true false
    ∷ props_of true false false false
    ∷ props_of true true false false
    ∷ props_of true false true false
    ∷ props_of false false false true
    ∷ props_of true false false true
    ∷ props_of true true false true
    ∷ []

-- `self as u8`.
abbrev pub to_u8 : Reliability → ℕ
to_u8 unreliable = 0
to_u8 unreliable_sequenced = 1
to_u8 Reliability.reliable = 2
to_u8 reliable_ordered = 3
to_u8 reliable_sequenced = 4
to_u8 unreliable_with_ack_receipt = 5
to_u8 reliable_with_ack_receipt = 6
to_u8 reliable_ordered_with_ack_receipt = 7

-- The index is below 8 for each reliability, so the default is not read.
abbrev props : Reliability → ReliabilityProps
props r = get_or reliability_props (to_u8 r) (props_of false false false false)

unfoldable pub is_reliable : Reliability → Bool
is_reliable r = (props r).reliable

unfoldable pub is_ordered : Reliability → Bool
is_ordered r = (props r).ordered

unfoldable pub is_sequenced : Reliability → Bool
is_sequenced r = (props r).sequenced

unfoldable pub is_with_ack_receipt : Reliability → Bool
is_with_ack_receipt r = (props r).with_ack_receipt

unfoldable pub try_from : ℕ → Result DecodeError Reliability
try_from value =
    if value == 0
    then ok unreliable
    else if value == 1
    then ok unreliable_sequenced
    else if value == 2
    then ok Reliability.reliable
    else if value == 3
    then ok reliable_ordered
    else if value == 4
    then ok reliable_sequenced
    else if value == 5
    then ok unreliable_with_ack_receipt
    else if value == 6
    then ok reliable_with_ack_receipt
    else if value == 7
    then ok reliable_ordered_with_ack_receipt
    else err (unknown_reliability value)

pub encode : Reliability → List ℕ
encode r = to_u8 r ∷ []

pub decode : List ℕ → Decoded Reliability
decode src = do (b, src) ← decode_u8 src; r ← try_from b; ok (r, src)

-- The byte of a reliability is below 8 and reads back as that reliability.
pub try_from-to_u8 : (r : Reliability) → (to_u8 r < 8) × (try_from (to_u8 r) ≡ ok r)
unfolding try_from
try_from-to_u8 unreliable = (omega arith, refl)
try_from-to_u8 unreliable_sequenced = (omega arith, refl)
try_from-to_u8 Reliability.reliable = (omega arith, refl)
try_from-to_u8 reliable_ordered = (omega arith, refl)
try_from-to_u8 reliable_sequenced = (omega arith, refl)
try_from-to_u8 unreliable_with_ack_receipt = (omega arith, refl)
try_from-to_u8 reliable_with_ack_receipt = (omega arith, refl)
try_from-to_u8 reliable_ordered_with_ack_receipt = (omega arith, refl)

pub to_u8-try_from : (v : ℕ) {r : Reliability} → try_from v ≡ ok r → to_u8 r ≡ v
unfolding try_from
to_u8-try_from v e = ground arith

pub try_from_fails : (v : ℕ) → 8 ≤ v → try_from v ≡ err (unknown_reliability v)
unfolding try_from
try_from_fails v h = ground arith

-- A reliability reads back from its byte.
pub decode-encode_reliability :
    (r : Reliability) (rest : List ℕ) → decode (encode r ++ rest) ≡ ok (r, rest)
unfolding decode encode decode_u8
decode-encode_reliability r rest = rw (try_from-to_u8 r).1
