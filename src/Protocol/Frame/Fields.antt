-- ===== src/Protocol/Frame/Fields.antt =====
-- The optional fields of a frame: which are there, and each on the wire.
use raknet_rust.Common.{
  ℕ, ◌≤◌, ◌<◌, ◌≡◌, refl, Bool, true, false, List, [], ◌∷◌, ◌++◌, Option, none, some, ok,
  append_assoc, arith,
}
use raknet_rust.Protocol.Errors.{EncodeError}
use raknet_rust.Protocol.Constants.{max_split_parts}
use raknet_rust.Protocol.Buffers.{BufInts}
use raknet_rust.Protocol.Primitives.{encode_u8, decode_u8, encode_int}
use raknet_rust.Protocol.Primitives.RoundTrip.{decode_int-encode_int}
use raknet_rust.Protocol.Sequence24
use raknet_rust.Protocol.Sequence24.{Sequence24, IsSeq}
use raknet_rust.Protocol.Sequence24.Codec
use raknet_rust.Protocol.Frame.{
  SplitInfo, encode_index, decode_index, encode_order, decode_order, encode_split, decode_split,
}

-- The field is there exactly when the flag is set, and is a sequence number.
abbrev pub HasIndex : Bool → Option Sequence24 → Type 0
HasIndex true (some i) = IsSeq i
HasIndex true none = ⊥
HasIndex false none = Unit {0}
HasIndex false (some i) = ⊥

abbrev pub HasOrder : Bool → Option Sequence24 → Option ℕ → Type 0
HasOrder true (some i) (some c) = IsSeq i × (c < 256)
HasOrder true (some i) none = ⊥
HasOrder true none channel = ⊥
HasOrder false none none = Unit {0}
HasOrder false none (some c) = ⊥
HasOrder false (some i) channel = ⊥

-- A split part has an index below its count, and the count is 1 to 8192.
abbrev pub IsSplit : SplitInfo → Type 0
IsSplit s = (s.part_count ≤ max_split_parts) × (s.part_id < 65536) × (s.part_index < s.part_count)

abbrev pub HasSplit : Bool → Option SplitInfo → Type 0
HasSplit true (some s) = IsSplit s
HasSplit true none = ⊥
HasSplit false none = Unit {0}
HasSplit false (some s) = ⊥

pub index_lem :
    (flag : Bool) (index : Option Sequence24) (e : EncodeError)
    → HasIndex flag index
    → (bytes : List ℕ) × (encode_index flag index e ≡ ok bytes)
      × ((rest : List ℕ) → decode_index flag (bytes ++ rest) ≡ ok (index, rest))
unfolding encode_index decode_index
index_lem true (some i) e h = (Sequence24.encode i, refl, λ rest. rw (Codec.decode-encode i rest h))
index_lem true none e h = absurd h
index_lem false none e h = ([], refl, λ rest. refl)
index_lem false (some i) e h = absurd h

pub order_lem :
    (flag : Bool) (index : Option Sequence24) (channel : Option ℕ)
    → HasOrder flag index channel
    → (bytes : List ℕ) × (encode_order flag index channel ≡ ok bytes)
      × ((rest : List ℕ) → decode_order flag (bytes ++ rest) ≡ ok ((index, channel), rest))
unfolding encode_order decode_order encode_u8 decode_u8
order_lem true (some i) (some c) h = (
  Sequence24.encode i ++ (c ∷ []),
  refl,
  λ rest. simp (append_assoc, Codec.decode-encode i (c ∷ rest) h.0),
)
order_lem true (some i) none h = absurd h
order_lem true none channel h = absurd h
order_lem false none none h = ([], refl, λ rest. refl)
order_lem false none (some c) h = absurd h
order_lem false (some i) channel h = absurd h

module _ ⦃io : BufInts⦄ where
  split_tests :
      (s : SplitInfo) (rest : List ℕ)
      → IsSplit s
      → decode_split true (
          encode_int 4 s.part_count
          ++ (encode_int 2 s.part_id ++ (encode_int 4 s.part_index ++ rest)))
        ≡ ok (some s, rest)
  unfolding decode_split
  split_tests s rest h =
      rw
        (decode_int-encode_int 4 s.part_count
          (encode_int 2 s.part_id ++ (encode_int 4 s.part_index ++ rest)) (omega arith))
        (rw (decode_int-encode_int 2 s.part_id (encode_int 4 s.part_index ++ rest) (omega arith))
          (rw (decode_int-encode_int 4 s.part_index rest (omega arith)) (ground arith)))

  pub split_lem :
      (flag : Bool) (split : Option SplitInfo)
      → HasSplit flag split
      → (bytes : List ℕ) × (encode_split flag split ≡ ok bytes)
        × ((rest : List ℕ) → decode_split flag (bytes ++ rest) ≡ ok (split, rest))
  unfolding encode_split
  split_lem true (some s) h = (
    encode_int 4 s.part_count ++ (encode_int 2 s.part_id ++ encode_int 4 s.part_index),
    refl,
    λ rest. simp append_assoc (split_tests s rest h),
  )
  split_lem true none h = absurd h
  split_lem false none h = ([], refl, λ rest. unfold decode_split in refl)
  split_lem false (some s) h = absurd h
