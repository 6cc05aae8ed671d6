-- ===== src/Session.antt =====
-- The session layer: src/session/.
pub mod ReliableTracker
pub mod AckQueue
pub mod OrderingChannels
pub mod SplitAssembler
pub mod AckFlow
pub mod Receive
pub mod Outgoing
pub mod Send
pub mod State
pub mod Congestion
pub mod Sent
pub mod Retransmit
pub mod Dispatch
pub mod Tick
pub mod Tunables
pub mod Start
pub mod Run
