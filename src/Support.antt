-- ===== src/Support.antt =====
-- The modules that the applications share, of applications/common.
pub mod Time
pub mod Resets
