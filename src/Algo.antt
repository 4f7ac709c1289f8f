-- ===== src/Algo.antt =====
-- src/algo/: algorithms over arrays.
pub mod Sort
