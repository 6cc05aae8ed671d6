-- ===== src/Protocol/Constants.antt =====
-- The constants of src/protocol/constants.rs.
use raknet_rust.Common.{ℕ, List, [], ◌∷◌}

abbrev pub raknet_protocol_version : ℕ
raknet_protocol_version = 11

abbrev pub minimum_mtu_size : ℕ
minimum_mtu_size = 576

abbrev pub maximum_mtu_size : ℕ
maximum_mtu_size = 1400

abbrev pub max_ack_sequences : ℕ
max_ack_sequences = 8192

abbrev pub max_split_parts : ℕ
max_split_parts = 8192

abbrev pub raknet_datagram_header_size : ℕ
raknet_datagram_header_size = 4

abbrev pub frame_flag_split : ℕ
frame_flag_split = 0b0001_0000

abbrev pub frame_flag_needs_bas : ℕ
frame_flag_needs_bas = 0b0000_0100

abbrev pub default_unconnected_magic : List ℕ
default_unconnected_magic =
    0x00 ∷ 0xFF ∷ 0xFF ∷ 0x00 ∷ 0xFE ∷ 0xFE ∷ 0xFE ∷ 0xFE ∷ 0xFD ∷ 0xFD ∷ 0xFD ∷ 0xFD ∷ 0x12 ∷ 0x34
    ∷ 0x56 ∷ 0x78 ∷ []

abbrev pub split_reassembly_ttl_ms : ℕ
split_reassembly_ttl_ms = 30_000

abbrev pub max_inflight_split_compounds_per_peer : ℕ
max_inflight_split_compounds_per_peer = 256
