-- ===== src/Connector/Mpesa.antt =====
-- internal/connector/mpesa: auth.go in Token, connector.go in Daraja.
pub mod Token
pub mod Freshness
pub mod Daraja
pub mod Unfinished
