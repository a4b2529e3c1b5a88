-- ===== src/Accounts.antt =====
-- services/accounts-svc: the accounts, and how an activated user gets one.
pub mod State
pub mod Create
pub mod Status
pub mod Resolve
pub mod Activate
pub mod Opened
pub mod Provisioned
pub mod Sound
pub mod Closed
pub mod Tests
