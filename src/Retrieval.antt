-- ===== src/Retrieval.antt =====
-- The knowledge base's retrieval (rag/).
pub mod Filter
pub mod Rows
pub mod Rewrite
pub mod Rerank
pub mod Hybrid
pub mod Search
pub mod Splitter
