-- ===== src/ApiVersion.antt =====
-- crates/api-version: the contract version of an API, its negotiation, and the transforms.
pub mod Version
pub mod Transform
pub mod Platform
pub mod Policy
pub mod Layer
mod Examples
