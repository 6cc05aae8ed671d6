-- ===== src/Session/SplitAssembler.antt =====
-- src/session/split_assembler.rs: payloads that come in parts. The `HashMap` of the compounds is a map
-- by part id; an `Instant` and a `Duration` are nanoseconds, and `usize::try_from` of a 32-bit count
-- does not fail.
pub mod Parts
pub mod Invariant
pub mod Bounded
pub mod Reassembly
pub mod Indices
mod Tests
use raknet_rust.Common.{
  ℕ, zero, suc, ◌+◌, ◌-◌, ◌*◌, ◌%◌, ◌≡◌, max, Bool, true, false, not, ◌&&◌, ◌||◌, ◌==◌, ltb, leb,
  if◌then◌else◌, List, [], ◌∷◌, ◌++◌, length, get_or, set, replicate, Option, none, some, Result,
  ok, err,
}
use raknet_rust.Common.Map.{lookup, insert, remove}
use raknet_rust.Protocol.Errors.{
  DecodeError, split_index_out_of_range, split_count_zero, split_count_mismatch, split_too_large,
  split_buffer_full,
}
use raknet_rust.Protocol.Sequence24.{Sequence24}
use raknet_rust.Protocol.FrameHeader.{FrameHeader}
use raknet_rust.Protocol.Frame.{Frame, SplitInfo}

pub record SplitEntry : Type 0 where
  pub header : FrameHeader
  pub reliable_index : Option Sequence24
  pub sequence_index : Option Sequence24
  pub ordering_index : Option Sequence24
  pub ordering_channel : Option ℕ
  pub part_count : ℕ
  pub received : ℕ
  pub parts : List (Option (List ℕ))
  pub last_update : ℕ

pub record SplitAssembler : Type 0 where
  pub entries : List (ℕ × SplitEntry)
  pub ttl : ℕ
  pub max_parts : ℕ
  pub max_concurrent : ℕ

unfoldable pub new : ℕ → ℕ → ℕ → SplitAssembler
new ttl max_parts max_concurrent = record {
  entries = [];
  ttl = if ttl == 0 then 30_000_000_000 else ttl;
  max_parts = max max_parts 1;
  max_concurrent = max max_concurrent 1;
}

-- The entries that stay, and how many are dropped. `duration_since` is 0 for a later instant.
unfoldable pub prune_entries : ℕ → ℕ → List (ℕ × SplitEntry) → List (ℕ × SplitEntry) × ℕ
prune_entries now ttl [] = ([], 0)
prune_entries now ttl ((id, e) ∷ rest) =
    let (kept, dropped) = prune_entries now ttl rest in
    if leb ttl (now - e.last_update) then (kept, dropped + 1) else ((id, e) ∷ kept, dropped)

unfoldable pub prune : SplitAssembler → ℕ → SplitAssembler × ℕ
prune a now =
    let (kept, dropped) = prune_entries now a.ttl a.entries in
    (record a { entries = kept }, dropped)

abbrev pub new_entry : Frame → SplitInfo → ℕ → SplitEntry
new_entry frame split now = record {
  header = frame.header;
  reliable_index = frame.reliable_index;
  sequence_index = frame.sequence_index;
  ordering_index = frame.ordering_index;
  ordering_channel = frame.ordering_channel;
  part_count = split.part_count;
  received = 0;
  parts = replicate split.part_count none;
  last_update = now;
}

abbrev pub is_some {ℓ} : {A : Type ℓ} → Option A → Bool
is_some none = false
is_some (some a) = true

-- The parts in a row, if all are there.
unfoldable pub merge : List (Option (List ℕ)) → Option (List ℕ)
merge [] = some []
merge (none ∷ parts) = none
merge (some bytes ∷ parts) = elim (merge parts) [ some rest ↦ some (bytes ++ rest) | none ↦ none ]

-- `(payload.len() as u16) << 3`: the upper bits are lost.
unfoldable pub assembled_bits : ℕ → ℕ
assembled_bits len = len % 65536 * 8 % 65536

unfoldable pub assembled : SplitEntry → List ℕ → Frame
unfolding assembled_bits
assembled e payload = record {
  header = record {
    reliability = e.header.reliability;
    is_split = false;
    needs_bas = e.header.needs_bas;
  };
  bit_length = assembled_bits (length payload);
  reliable_index = e.reliable_index;
  sequence_index = e.sequence_index;
  ordering_index = e.ordering_index;
  ordering_channel = e.ordering_channel;
  split = none;
  payload = payload;
}

abbrev pub Added : Type 0
Added = SplitAssembler × Result DecodeError (Option Frame)

abbrev with_entry : SplitAssembler → ℕ → SplitEntry → SplitAssembler
with_entry a id e = record a { entries = insert id e a.entries }

abbrev without_entry : SplitAssembler → ℕ → SplitAssembler
without_entry a id = record a { entries = remove id a.entries }

finish : SplitAssembler → ℕ → SplitEntry → Option (List ℕ) → Added
finish a id e none = (with_entry a id e, err split_count_mismatch)
finish a id e (some payload) = (without_entry a id, ok (some (assembled e payload)))

-- The new part is stored, and the compound leaves when it is complete.
place : SplitAssembler → SplitInfo → SplitEntry → List ℕ → ℕ → Added
unfolding finish
place a split entry payload now =
    let e = record entry {
      received = entry.received + 1;
      parts = set entry.parts split.part_index (some payload);
      last_update = now;
    } in
    if not (e.received == length e.parts)
    then (with_entry a split.part_id e, ok none)
    else finish a split.part_id e (merge e.parts)

add_to : SplitAssembler → SplitInfo → SplitEntry → List ℕ → ℕ → Added
unfolding place
add_to a split entry payload now =
    let held = with_entry a split.part_id entry in
    if not (entry.part_count == split.part_count)
    then (held, err split_count_mismatch)
    else if not (length entry.parts == split.part_count)
    then (held, err split_count_mismatch)
    else if leb (length entry.parts) split.part_index
    then (held, err split_index_out_of_range)
    else if is_some (get_or entry.parts split.part_index none)
    then (held, ok none)
    else place a split entry payload now

add_known : SplitAssembler → Frame → SplitInfo → ℕ → Option SplitEntry → Added
unfolding add_to
add_known a frame split now (some entry) = add_to a split entry frame.payload now
add_known a frame split now none =
    if leb a.max_concurrent (length a.entries)
    then (a, err split_buffer_full)
    else add_to a split (new_entry frame split now) frame.payload now

add_part : SplitAssembler → Frame → SplitInfo → ℕ → Added
unfolding add_known
add_part a frame split now =
    if split.part_count == 0
    then (a, err split_count_zero)
    else if ltb a.max_parts split.part_count
    then (a, err split_too_large)
    else if leb split.part_count split.part_index
    then (a, err split_index_out_of_range)
    else add_known a frame split now (lookup split.part_id a.entries)

add_split : SplitAssembler → Frame → ℕ → Option SplitInfo → Added
unfolding add_part
add_split a frame now none = (a, err DecodeError.missing_split_info)
add_split a frame now (some split) = add_part a frame split now

-- A frame that is no part is passed through. Compounds that are out of date leave before a part is
-- looked at, also when the part is refused.
unfoldable pub add : SplitAssembler → Frame → ℕ → Added
unfolding add_split
add a frame now =
    if not frame.header.is_split
    then (a, ok (some frame))
    else add_split (prune a now).0 frame now frame.split

present_parts : List (Option (List ℕ)) → List (List ℕ)
present_parts [] = []
present_parts (none ∷ parts) = present_parts parts
present_parts (some bytes ∷ parts) = bytes ∷ present_parts parts

drain_entries : List (ℕ × SplitEntry) → List (List ℕ)
unfolding present_parts
drain_entries [] = []
drain_entries ((id, e) ∷ rest) = present_parts e.parts ++ drain_entries rest

pub drain_buffered_parts : SplitAssembler → SplitAssembler × List (List ℕ)
unfolding drain_entries
drain_buffered_parts a = (record a { entries = [] }, drain_entries a.entries)
