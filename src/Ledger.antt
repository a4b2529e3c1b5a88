-- ===== src/Ledger.antt =====
-- services/ledger-svc: the double-entry log, its cached balances, and the gRPC server over them.
pub mod State
pub mod Post
pub mod Balances
pub mod Posting
pub mod Locking
pub mod Execute
pub mod Unchecked
pub mod Invariant
pub mod Effects
pub mod Replay
pub mod Reads
pub mod Rebuild
pub mod Server
pub mod Tests
