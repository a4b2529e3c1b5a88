-- ===== src/Deposits.antt =====
-- services/transfers-svc: deposits that Stripe charges, and simulated withdrawals.
pub mod Rows
pub mod Create
pub mod Credit
pub mod Webhook
pub mod Withdraw
pub mod Backed
pub mod Kept
pub mod Delivered
pub mod Once
pub mod Payouts
mod Tests
