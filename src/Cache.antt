-- ===== src/Cache.antt =====
-- crates/cache: the connection to Valkey and the cache that serves stale values while it refreshes.
pub mod Url
pub mod Connect
pub mod Swr
mod Examples
