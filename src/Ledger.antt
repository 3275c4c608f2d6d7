-- ===== src/Ledger.antt =====
-- internal/ledger: the chart of accounts and the posting engine; internal/repository/ledger.go.
pub mod Accounts
pub mod Names
pub mod Rows
pub mod Engine
pub mod Balanced
pub mod Inserts
pub mod Postings
pub mod Collections
pub mod Payouts
pub mod Atomicity
