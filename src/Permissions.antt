-- ===== src/Permissions.antt =====
-- crates/permissions/src/lib.rs: scopes and scope sets.
pub mod Scope
pub mod ScopeSet
mod Examples
