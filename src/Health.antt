-- ===== src/Health.antt =====
-- The lifetime health counters: applications/protective_stop/src/health_logic.{c,h}.
pub mod Blob
pub mod Edge
pub mod Levels
pub mod Board
pub mod Store
