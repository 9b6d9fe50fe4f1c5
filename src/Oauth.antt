-- ===== src/Oauth.antt =====
-- crates/oauth: sign-in through OpenID Connect issuers and through three fixed providers.
pub mod Oidc
pub mod Social
mod Examples
