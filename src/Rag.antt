-- ===== src/Rag.antt =====
-- src/rag: the exact cache of query results, and the chunks of a document.
pub mod Chunker
pub mod ExactCache
pub mod Merging
