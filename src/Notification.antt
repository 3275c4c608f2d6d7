-- ===== src/Notification.antt =====
-- internal/notification: telling merchants what became of a payment.
pub mod Sender
pub mod Delivery
pub mod Consumer
pub mod Delivered
