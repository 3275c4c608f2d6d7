-- ===== src/Reconciliation.antt =====
-- internal/reconciliation: the local attempts against what the providers say.
pub mod Runner
pub mod Verdicts
