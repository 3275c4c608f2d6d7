-- ===== src/Domain.antt =====
-- The stored entities of internal/domain, and the message types of internal/connector and
-- internal/notification. Times are nanoseconds since Go's zero time, amounts are int64 values as
-- integers, and a `[]byte` is a text.
pub mod Intent
pub mod Attempt
pub mod Accounting
pub mod Message
pub mod Delivery
pub mod Refund
pub mod Portal
