-- ===== src/Oauth/Social.antt =====
-- crates/oauth/src/lib.rs: the three fixed providers. Requests and serde_json are parameters: what the
-- provider answers, and how its answers are read.
pub mod Identity
use kit.Prelude.{
  ℕ, Bool, true, false, Option, none, some, String, List, [], ◌∷◌, ◌++◌, if◌then◌else◌, str_eq,
  Result, ok, err, ◌>>=◌, ok_or,
}

pub data OAuthProvider : Type 0 where
  google git_hub discord : OAuthProvider

unfoldable pub as_str : OAuthProvider → String
as_str google = "google"
as_str git_hub = "github"
as_str discord = "discord"

unfoldable pub authorize_endpoint : OAuthProvider → String
authorize_endpoint google = "https://accounts.google.com/o/oauth2/v2/auth"
authorize_endpoint git_hub = "https://github.com/login/oauth/authorize"
authorize_endpoint discord = "https://discord.com/api/oauth2/authorize"

unfoldable pub token_endpoint : OAuthProvider → String
token_endpoint google = "https://oauth2.googleapis.com/token"
token_endpoint git_hub = "https://github.com/login/oauth/access_token"
token_endpoint discord = "https://discord.com/api/oauth2/token"

unfoldable pub userinfo_endpoint : OAuthProvider → String
userinfo_endpoint google = "https://openidconnect.googleapis.com/v1/userinfo"
userinfo_endpoint git_hub = "https://api.github.com/user"
userinfo_endpoint discord = "https://discord.com/api/users/@me"

unfoldable pub default_scope : OAuthProvider → String
default_scope google = "openid email profile"
default_scope git_hub = "read:user user:email"
default_scope discord = "identify"

unfoldable pub supports_pkce : OAuthProvider → Bool
supports_pkce google = true
supports_pkce p = false

-- The error carries the text.
unfoldable pub from_str : String → Result String OAuthProvider
from_str s =
    if str_eq s "google"
    then ok google
    else if str_eq s "github"
    then ok git_hub
    else if str_eq s "discord"
    then ok discord
    else err s

pub data OAuthError : Type 0 where
  http : OAuthError
  provider_error : String → OAuthError
  bad_profile : OAuthProvider → OAuthError
  missing_field : String → OAuthError

pub record OAuthClient : Type 0 where
  pub provider : OAuthProvider
  pub client_id : String
  pub client_secret : String
  pub redirect_uri : String
  pub scope : String

pub record AuthorizeRequest : Type 0 where
  pub url : String
  pub state : String
  pub pkce_verifier : Option String

pub record OAuthUser : Type 0 where
  pub provider : OAuthProvider
  pub provider_user_id : String
  pub email : Option String
  pub email_verified : Bool
  pub name : Option String

unfoldable pub new : OAuthProvider → String → String → String → Option String → OAuthClient
new provider client_id client_secret redirect_uri scope = record {
  provider = provider;
  client_id = client_id;
  client_secret = client_secret;
  redirect_uri = redirect_uri;
  scope = elim scope [ none ↦ default_scope provider | some s ↦ s ];
}

unfoldable pub challenge_pairs : (String → String) → Option String → List (String × String)
challenge_pairs challenge none = []
challenge_pairs challenge (some verifier) =
    ("code_challenge", challenge verifier) ∷ ("code_challenge_method", "S256") ∷ []

-- `with_pairs` is the URL with these query pairs, `challenge` the S256 challenge; the random texts are
-- the last two arguments.
unfoldable pub authorize_url :
    (String → List (String × String) → String)
    → (String → String)
    → OAuthClient
    → String
    → String
    → AuthorizeRequest
authorize_url with_pairs challenge c state random =
    let pkce_verifier = if supports_pkce c.provider then some random else none in
    record {
      url = with_pairs (authorize_endpoint c.provider) (
          ("client_id", c.client_id)
          ∷ ("redirect_uri", c.redirect_uri)
          ∷ ("response_type", "code")
          ∷ ("scope", c.scope)
          ∷ ("state", state)
          ∷ challenge_pairs challenge pkce_verifier);
      state = state;
      pkce_verifier = pkce_verifier;
    }

unfoldable pub token_form : OAuthClient → String → Option String → List (String × String)
token_form c code pkce_verifier =
    (("client_id", c.client_id)
      ∷ ("client_secret", c.client_secret)
      ∷ ("code", code)
      ∷ ("grant_type", "authorization_code")
      ∷ ("redirect_uri", c.redirect_uri)
      ∷ [])
    ++ elim pkce_verifier [ none ↦ [] | some verifier ↦ ("code_verifier", verifier) ∷ [] ]

pub record TokenResponse : Type 0 where
  pub access_token : Option String
  pub error : Option String

-- `post` is the provider's answer to a form, if it is a success and can be read.
unfoldable pub exchange_code :
    (String → List (String × String) → Option TokenResponse)
    → OAuthClient
    → String
    → Option String
    → Result OAuthError String
exchange_code post c code pkce_verifier =
    elim (post (token_endpoint c.provider) (token_form c code pkce_verifier)) [
      | none ↦ err http
      | some token ↦ elim token.error [
        | some e ↦ err (provider_error e)
        | none ↦ ok_or token.access_token (missing_field "access_token")
      ]
    ]

pub record GoogleUserInfo : Type 0 where
  pub sub : String
  pub email : Option String
  pub email_verified : Bool
  pub name : Option String

pub record GitHubUserInfo : Type 0 where
  pub id : String  -- the decimal digits of a `u64`
  pub email : Option String
  pub name : Option String
  pub login : Option String

pub record DiscordUserInfo : Type 0 where
  pub id : String
  pub username : String
  pub global_name : Option String
  pub email : Option String
  pub verified : Bool

-- `serde_json::from_str` at the three types.
pub record Profiles : Type 0 where
  pub google_info : String → Option GoogleUserInfo
  pub git_hub_info : String → Option GitHubUserInfo
  pub discord_info : String → Option DiscordUserInfo

-- `Option::or`.
abbrev pub or_else : Option String → Option String → Option String
or_else none b = b
or_else (some a) b = some a

unfoldable pub parse_user : Profiles → OAuthProvider → String → Result OAuthError OAuthUser
parse_user j google body = elim (j.google_info body) [
  | none ↦ err (bad_profile google)
  | some info ↦ ok (record {
    provider = google;
    provider_user_id = info.sub;
    email = info.email;
    email_verified = info.email_verified;
    name = info.name;
  })
]
parse_user j git_hub body = elim (j.git_hub_info body) [
  | none ↦ err (bad_profile git_hub)
  | some info ↦ ok (record {
    provider = git_hub;
    provider_user_id = info.id;
    email = info.email;
    email_verified = false;
    name = or_else info.name info.login;
  })
]
parse_user j discord body = elim (j.discord_info body) [
  | none ↦ err (bad_profile discord)
  | some info ↦ ok (record {
    provider = discord;
    provider_user_id = info.id;
    email = info.email;
    email_verified = info.verified;
    name = or_else info.global_name (some info.username);
  })
]

-- `fetch` is the body of the provider's answer to an access token, if it is a success.
unfoldable pub fetch_user :
    Profiles
    → (String → String → Option String)
    → OAuthClient
    → String
    → Result OAuthError OAuthUser
fetch_user j fetch c access_token = elim (fetch (userinfo_endpoint c.provider) access_token) [
  | none ↦ err http
  | some body ↦ parse_user j c.provider body
]
