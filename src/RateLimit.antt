-- ===== src/RateLimit.antt =====
-- crates/ratelimit: the token bucket and the client's address behind proxies.
pub mod Float
pub mod Limiter
pub mod Ip
pub mod Examples
