-- ===== src/Time.antt =====
-- src/time/: UTC date and time.
pub mod Signed
pub mod Floors
pub mod DateTime
pub mod Calendar
