-- ===== src/Settlement.antt =====
-- internal/settlement: the run that pays merchants their balances out.
pub mod Runner
pub mod Draws
pub mod Solvency
