-- ===== src/Connector.antt =====
-- internal/connector: the two providers' connectors, over HTTP.
pub mod Http
pub mod Paystack
pub mod Mpesa
