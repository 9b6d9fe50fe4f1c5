-- ===== src/Github.antt =====
-- crates/github: the tokens of an app, and the proof that a user has an installation.
pub mod App
pub mod Ownership
mod Examples
use kit.Prelude.{String}
use kit.Oauth.Social.{OAuthError}

pub data GithubError : Type 0 where
  private_key jwt_signing clock : GithubError
  http : String → GithubError
  exchange : OAuthError → GithubError
