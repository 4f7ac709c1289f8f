-- ===== src/Util.antt =====
-- src/util/: hashing.
pub mod Hash
