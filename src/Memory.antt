-- ===== src/Memory.antt =====
-- src/memory: the memory of a conversation.
pub mod ShortTerm
