-- ===== src/Streaming.antt =====
-- src/streaming: backpressure between the producer and the consumer of tokens.
pub mod Backpressure
