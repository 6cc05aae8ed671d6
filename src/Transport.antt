-- ===== src/Transport.antt =====
-- The transport layer: src/transport/.
pub mod SessionPipeline
pub mod RateLimiter
