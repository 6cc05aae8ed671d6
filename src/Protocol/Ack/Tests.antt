-- ===== src/Protocol/Ack/Tests.antt =====
-- The theorems on ACK payloads at concrete ranges.
use raknet_rust.Common.{ℕ, ◌≡◌, List, [], ◌∷◌, ◌++◌, ok, arith}
use raknet_rust.Protocol.Buffers.Reference.{reference}
use raknet_rust.Protocol.Sequence24.{value}
use raknet_rust.Protocol.Ack.{
  AckNackPayload, range_of, wraps, encode_payload, decode_payload, total_records, record_count,
}
use raknet_rust.Protocol.Ack.RoundTrip.{wire_ranges, decode_payload-encode_payload}

-- One range that wraps, and one that does not.
abbrev payload : AckNackPayload
payload = record { ranges = range_of 16_777_214 1 ∷ range_of 5 9 ∷ [] }

decode_payload-encode_payload_two :
    (bytes : List ℕ) × (encode_payload payload ≡ ok bytes)
    × (decode_payload (bytes ++ (9 ∷ []))
        ≡ ok (record { ranges = wire_ranges payload.ranges }, 9 ∷ []))
decode_payload-encode_payload_two =
    decode_payload-encode_payload payload (9 ∷ [])
      ((omega arith, omega arith), ((omega arith, omega arith), tt))
      (unfold total_records record_count wraps value in omega arith)
