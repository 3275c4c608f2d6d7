-- ===== src/Webhook.antt =====
-- internal/webhook: telling the merchants' endpoints about a provider's webhook.
pub mod Dispatcher
pub mod Deliveries
pub mod Processor
pub mod Stream
pub mod Fanout
pub mod Isolation
pub mod Consumed
