-- ===== src/Api.antt =====
-- internal/api, without the portal: what a request changes and how it is answered.
pub mod Handler
pub mod Sequences
pub mod Outcomes
pub mod Bearer
pub mod Payments
pub mod Checkout
pub mod Settings
pub mod Ingest
pub mod Repeats
