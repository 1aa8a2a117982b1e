-- ===== src/Memory.antt =====
-- The package memory: the record of a past task, working memory and long-term memory.
pub mod Models
pub mod LongTerm
pub mod Working
pub mod Extractor
