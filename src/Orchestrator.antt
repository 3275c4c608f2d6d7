-- ===== src/Orchestrator.antt =====
-- internal/orchestrator: the life of a payment intent, from its request to its ledger entries.
pub mod State
pub mod Lifecycle
pub mod Reaches
pub mod Outcome
pub mod Webhook
pub mod Query
pub mod Change
pub mod Touched
pub mod Once
pub mod Late
pub mod History
pub mod Redelivery
pub mod Fees
pub mod Paid
pub mod Create
pub mod Created
pub mod Requests
pub mod Growth
pub mod Idempotent
pub mod Overtaken
pub mod Premature
pub mod Races
