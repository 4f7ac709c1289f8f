-- ===== src/Search.antt =====
-- src/search/: text search.
pub mod Find
