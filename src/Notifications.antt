-- ===== src/Notifications.antt =====
-- services/notifications-svc: the mails that transfer events become.
pub mod State
pub mod Send
pub mod Consume
pub mod Once
pub mod Ends
pub mod Tests
