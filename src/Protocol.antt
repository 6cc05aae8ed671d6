-- ===== src/Protocol.antt =====
-- The wire protocol: src/protocol/.
pub mod Errors
pub mod Constants
pub mod Buffers
pub mod Sequence24
pub mod Primitives
pub mod Reliability
pub mod FrameHeader
pub mod Ack
pub mod Frame
pub mod Datagram
pub mod Connected
