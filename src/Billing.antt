-- ===== src/Billing.antt =====
-- crates/billing: Stripe's webhooks, their signatures and the state changes that they carry.
pub mod Signature
pub mod Events
mod Examples
