-- ===== src/Pgha.antt =====
-- pkg/pgha: which database errors a retry can cure, and the retry loop.
pub mod Errors
pub mod Retry
pub mod Ends
pub mod Tests
