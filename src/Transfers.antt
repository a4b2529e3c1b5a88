-- ===== src/Transfers.antt =====
-- services/transfers-svc: transfers, from the request to the ledger and back.
pub mod State
pub mod Mark
pub mod Create
pub mod Settle
pub mod Reconcile
pub mod Handler
pub mod Announced
pub mod Returned
pub mod Settled
pub mod Resolved
pub mod Advances
pub mod Admits
pub mod Served
pub mod Requests
pub mod FailClosed
pub mod Tests
