-- ===== src/Portal.antt =====
-- internal/api/portal.go: the merchants' portal.
pub mod Otp
pub mod Tables
pub mod Texts
pub mod Session
pub mod Signup
pub mod Keys
pub mod Team
