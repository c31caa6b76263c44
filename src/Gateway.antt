-- ===== src/Gateway.antt =====
-- The gateway: src/ai_gateway.
pub mod Breaker
pub mod Fallback
pub mod Retry
pub mod Bucket
pub mod Limiter
pub mod Balancer
pub mod Latency
