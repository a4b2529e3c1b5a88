-- ===== src/Fraud.antt =====
-- services/fraud-svc: the rules that approve or reject a transfer, and the log of its decisions.
pub mod Check
pub mod Limits
pub mod Tests
