-- ===== src/Handshake.antt =====
-- The packets before a connection: src/handshake/.
pub mod Packets
pub mod Request2
pub mod Encode
pub mod Decode
pub mod Layout
pub mod Request2Wire
pub mod RoundTrip
pub mod Refusal
mod Tests
