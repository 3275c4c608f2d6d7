-- ===== src/Tests.antt =====
-- The theorems of the other modules at concrete inputs.
mod Fixtures
mod Payments
mod Books
mod Rails
mod Webhooks
mod Providers
mod Portal
mod Api
