-- ===== src/Routing.antt =====
-- internal/routing: the circuit breaker and the rule engine.
pub mod Breaker
pub mod Engine
pub mod Availability
pub mod Trips
pub mod Decisions
