-- ===== src/Crypto.antt =====
-- crates/crypto: envelope encryption, and the two backends that wrap the keys.
pub mod Envelope
pub mod Local
pub mod Kms
pub mod Routing
mod Examples
