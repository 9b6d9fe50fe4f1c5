-- ===== src/Github/App.antt =====
-- crates/github/src/app.rs: the tokens of installations and their cache. jsonwebtoken, reqwest and chrono
-- are parameters, the clock is an argument. Names of repositories are their characters.
pub mod Names
pub mod Scope
use kit.Prelude.{
  ℕ, ◌+◌, ◌-◌, Bool, true, false, ◌&&◌, Option, none, some, String, List, [], ◌∷◌, ◌++◌, ltb, ◌==◌,
  if◌then◌else◌, Result, ok, err, ok_or,
}
use kit.Prelude.Int.{ℤ, pos_part, neg_part, eq_ℤ}
use kit.Prelude.Text.{bytes_eq}
use kit.Github.{GithubError, private_key, jwt_signing, clock, http}

abbrev pub jwt_lifetime_secs : ℕ
jwt_lifetime_secs = 540

abbrev pub clock_skew_secs : ℕ
clock_skew_secs = 60

abbrev pub refresh_margin_secs : ℕ
refresh_margin_secs = 60

abbrev pub fallback_ttl_secs : ℕ
fallback_ttl_secs = 3000

pub record AppClaims : Type 0 where
  pub iat : ℕ
  pub exp : ℕ
  pub iss : ℕ  -- its decimal digits are the text

pub record TokenResponse : Type 0 where
  pub token : String
  pub expires_at : String

-- `saturating_sub` is subtraction on ℕ.
unfoldable pub app_claims : ℕ → ℕ → AppClaims
app_claims app_id now = record {
  iat = now - clock_skew_secs;
  exp = now + jwt_lifetime_secs;
  iss = app_id;
}

unfoldable pub is_fresh : ℕ → ℕ → Bool
is_fresh expiry now = ltb (now + refresh_margin_secs) expiry

pub record Request : Type 0 where
  pub installation_id : ℤ
  pub repositories : Option (List (List ℕ))
  pub jwt : String
  pub user_agent : String

-- `send` is the answer to a request in a round, if it is a success and can be read.
pub record Crates : Type 1 where
  pub EncodingKey : Type 0
  pub from_rsa_pem : String → Option EncodingKey
  pub encode : AppClaims → EncodingKey → Option String
  pub send : ℕ → Request → Option TokenResponse
  pub parse_from_rfc3339 : String → Option ℤ

-- An entry of the cache, with its key.
pub record Entry : Type 0 where
  pub installation_id : ℤ
  pub scope : List ℕ
  pub token : String
  pub expiry : ℕ

abbrev pub Cache : Type 0
Cache = List Entry

-- `join(",")`.
unfoldable pub join : List (List ℕ) → List ℕ
join [] = []
join (name ∷ []) = name
join (name ∷ next ∷ names) = name ++ b',' ∷ join (next ∷ names)

-- An insertion stands in front of the entries that it replaces.
unfoldable pub get : ℤ → List ℕ → Cache → Option Entry
get installation_id scope [] = none
get installation_id scope (e ∷ cache) =
    let rest = get installation_id scope cache in
    if eq_ℤ e.installation_id installation_id && bytes_eq e.scope scope then some e else rest

unfoldable pub repositories_of : List (List ℕ) → Option (List (List ℕ))
repositories_of [] = none
repositories_of (name ∷ names) = some (name ∷ names)

module _ (c : Crates) where
  pub record GithubAppAuth : Type 0 where
    pub app_id : ℕ
    pub key : c.EncodingKey
    pub user_agent : String

  unfoldable pub new : ℕ → String → String → Result GithubError GithubAppAuth
  new app_id private_key_pem user_agent = elim (c.from_rsa_pem private_key_pem) [
    | none ↦ err private_key
    | some key ↦ ok (record { app_id = app_id; key = key; user_agent = user_agent })
  ]

  -- Of a token that was granted at a time.
  unfoldable pub expiry_of : ℕ → TokenResponse → ℕ
  expiry_of now r = elim (c.parse_from_rfc3339 r.expires_at) [
    | none ↦ now + fallback_ttl_secs
    | some at ↦ pos_part at + neg_part at
  ]

  module _ (a : GithubAppAuth) where
    unfoldable pub app_jwt : ℕ → Result GithubError String
    app_jwt now = ok_or (c.encode (app_claims a.app_id now) a.key) jwt_signing

    unfoldable pub request_of : ℤ → List (List ℕ) → String → Request
    request_of installation_id repos jwt = record {
      installation_id = installation_id;
      repositories = repositories_of repos;
      jwt = jwt;
      user_agent = a.user_agent;
    }

    unfoldable pub cached : ℕ → ℤ → List (List ℕ) → Cache → Option String
    cached now installation_id repos cache = elim (get installation_id (join repos) cache) [
      | none ↦ none
      | some e ↦ if is_fresh e.expiry now then some e.token else none
    ]

    unfoldable pub entry_of : ℕ → ℤ → List (List ℕ) → TokenResponse → Entry
    entry_of now installation_id repos r = record {
      installation_id = installation_id;
      scope = join repos;
      token = r.token;
      expiry = expiry_of now r;
    }

    unfoldable pub mint : ℕ → ℕ → ℤ → List (List ℕ) → Cache → Result GithubError String × Cache
    mint round now installation_id repos cache = elim (app_jwt now) [
      | err e ↦ (err e, cache)
      | ok jwt ↦ elim (c.send round (request_of installation_id repos jwt)) [
        | none ↦ (err (http "requesting an installation token"), cache)
        | some r ↦ (ok r.token, entry_of now installation_id repos r ∷ cache)
      ]
    ]

    -- The clock has none, where it stands before the epoch.
    unfoldable pub installation_token :
        ℕ → Option ℕ → ℤ → List (List ℕ) → Cache → Result GithubError String × Cache
    installation_token round none installation_id repos cache = (err clock, cache)
    installation_token round (some now) installation_id repos cache =
        elim (cached now installation_id repos cache) [
          | some token ↦ (ok token, cache)
          | none ↦ mint round now installation_id repos cache
        ]
