-- ===== src/Risk.antt =====
-- internal/risk: the amount limit and the velocity check.
pub mod Engine
pub mod Velocity
