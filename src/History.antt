-- ===== src/History.antt =====
-- services/transfers-svc: the history of an account, page by page.
pub mod Rows
pub mod Pages
pub mod Serve
pub mod Complete
pub mod Operations
pub mod Follow
pub mod Continued
pub mod Sequel
pub mod Cursors
pub mod Tests
