-- ===== src/Http.antt =====
-- crates/http: the client that fetches URLs which users give.
pub mod Address
pub mod Fetch
pub mod Examples
