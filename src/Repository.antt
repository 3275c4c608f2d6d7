-- ===== src/Repository.antt =====
-- internal/repository: the statements on payment intents, attempts, payouts and merchants. (Those on
-- ledger entries are in Ledger/Rows.antt.)
pub mod Intents
pub mod Attempts
pub mod Payouts
pub mod Keys
