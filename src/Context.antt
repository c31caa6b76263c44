-- ===== src/Context.antt =====
-- src/domain/context_management: what of a conversation is sent to a model.
pub mod SlidingWindow
pub mod Windows
