-- ===== src/Protocol/Errors.antt =====
-- The codec errors and the errors of settings of src/error.rs.
use Prim.Native.String.{String}
use raknet_rust.Common.{ℕ}

pub data EncodeError : Type 0 where
  missing_reliable_index : EncodeError
  missing_sequence_index : EncodeError
  missing_ordering_index : EncodeError
  missing_ordering_channel : EncodeError
  missing_split_info : EncodeError
  frame_bit_length_mismatch : EncodeError
  ack_record_overflow : ℕ → EncodeError
  invalid_mtu : ℕ → EncodeError
  offline_pong_motd_too_long : ℕ → EncodeError
  invalid_datagram_flags : ℕ → EncodeError

pub data DecodeError : Type 0 where
  unexpected_eof : DecodeError
  unknown_reliability : ℕ → DecodeError
  invalid_frame_bit_length : ℕ → DecodeError
  invalid_ack_packet : DecodeError
  invalid_datagram_flags : ℕ → DecodeError
  invalid_offline_packet_id : ℕ → DecodeError
  invalid_connected_packet_id : ℕ → DecodeError
  invalid_magic : DecodeError
  invalid_addr_version : ℕ → DecodeError
  invalid_request2_layout : DecodeError
  split_index_out_of_range : DecodeError
  split_count_zero : DecodeError
  missing_split_info : DecodeError
  split_count_mismatch : DecodeError
  split_too_large : DecodeError
  split_buffer_full : DecodeError
  invalid_ack_range_count : ℕ → DecodeError

pub record ConfigValidationError : Type 0 where
  pub config : String
  pub field : String
  pub message : String
