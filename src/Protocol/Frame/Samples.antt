-- ===== src/Protocol/Frame/Samples.antt =====
-- Frames that the tests run on.
use raknet_rust.Common.{ℕ, ◌*◌, true, false, List, [], ◌∷◌, length, none, some, arith, refl}
use raknet_rust.Protocol.Reliability.{reliable_ordered, is_reliable, is_ordered, is_sequenced}
use raknet_rust.Protocol.Frame.{Frame, payload_len, bytes_for, has_order}
use raknet_rust.Protocol.Frame.RoundTrip.{IsFrame}

-- The second frame of the stream, in its place on an ordered channel.
abbrev pub ordered_frame : ℕ → ℕ → List ℕ → Frame
ordered_frame index channel payload = record {
  header = record { reliability = reliable_ordered; is_split = false; needs_bas = false };
  bit_length = length payload * 8;
  reliable_index = some 1;
  sequence_index = none;
  ordering_index = some index;
  ordering_channel = some channel;
  split = none;
  payload = payload;
}

-- Part `index` of three of payload 9.
abbrev pub part_frame : ℕ → List ℕ → Frame
part_frame index payload = record {
  header = record { reliability = reliable_ordered; is_split = true; needs_bas = false };
  bit_length = length payload * 8;
  reliable_index = some 1;
  sequence_index = none;
  ordering_index = some 4;
  ordering_channel = some 2;
  split = some record { part_count = 3; part_id = 9; part_index = index };
  payload = payload;
}

pub ordered_frame-IsFrame : IsFrame (ordered_frame 5 2 (104 ∷ 105 ∷ []))
unfolding payload_len bytes_for is_reliable is_ordered is_sequenced has_order
ordered_frame-IsFrame = record {
  bits = omega arith;
  full = refl;
  nonempty = omega arith;
  reliable = omega arith;
  sequence = tt;
  order = (omega arith, omega arith);
  split_info = tt;
}

pub part_frame-IsFrame : IsFrame (part_frame 1 (7 ∷ []))
unfolding payload_len bytes_for is_reliable is_ordered is_sequenced has_order
part_frame-IsFrame = record {
  bits = omega arith;
  full = refl;
  nonempty = omega arith;
  reliable = omega arith;
  sequence = tt;
  order = (omega arith, omega arith);
  split_info = (omega arith, omega arith, omega arith);
}
