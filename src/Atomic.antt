-- ===== src/Atomic.antt =====
-- src/atomic/: shared words and structures built on atomic operations.
pub mod Spin
pub mod Ring
