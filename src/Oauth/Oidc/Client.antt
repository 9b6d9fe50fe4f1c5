-- ===== src/Oauth/Oidc/Client.antt =====
-- crates/oauth/src/oidc.rs: discovery, the client of an issuer, and its cached keys. Every fetch is one
-- of crates/http over its own network, so that each may be answered differently.
pub mod Refresh
pub mod Login
use kit.Prelude.{
  ℕ, ◌-◌, ◌*◌, Bool, true, false, not, ◌||◌, Option, none, some, String, List, [], ◌∷◌, ◌==◌, ltb,
  leb, if◌then◌else◌, Result, ok, err, ◌>>=◌, ok_or,
}
use kit.Prelude.Int.{ℤ}
use kit.Prelude.Json.{Fields}
use kit.Prelude.Tokens.{Algorithm}
use kit.Http.Fetch.{Network, SafeFetchOpts, SafeResponse, SafeFetchError, safe_get, safe_post_form}
use kit.Oauth.Oidc.{
  OidcError, IssuerMetadata, OidcIdentity, IdTokenExpectations, Header, Jwk, Crates,
  discovery_failed, jwks_failed, token_request, missing_id_token, token_endpoint_failed, id_token,
  unknown_key, without_slashes, normalize_issuer, discovery_url, check_metadata, find_kid,
  signing_algorithms, validate_id_token, identity_from_claims,
}

-- serde_json on the three documents that are read.
pub record Documents : Type 0 where
  pub metadata : List ℕ → Option IssuerMetadata
  pub token : List ℕ → Option (Option String)  -- the id_token of a token response
  pub jwks : List ℕ → Option (List Jwk)

-- `SafeFetchOpts::default()`.
abbrev pub default_opts : SafeFetchOpts
default_opts = record { max_body_bytes = 5 * 1024 * 1024; max_redirects = 5 }

-- The document of an answer with status 200.
unfoldable pub read_answer :
    {A : Type 0}
    → OidcError
    → (List ℕ → Option A)
    → Result SafeFetchError SafeResponse
    → Result OidcError A
read_answer e read (err e') = err e
read_answer e read (ok response) =
    if not (response.status == 200) then err e else ok_or (read response.body) e

unfoldable pub discover :
    (net : Network)
    → (net.Url → Option String)
    → (net.Url → Option String)
    → Documents
    → Bool
    → String
    → Result OidcError IssuerMetadata
discover net query fragment docs timed_out issuer = do
  issuer ← normalize_issuer net query fragment issuer
  meta ←
      read_answer discovery_failed docs.metadata
        (safe_get net timed_out (discovery_url issuer) default_opts)
  check_metadata net issuer meta >>= λ u. ok meta

pub record CachedJwks : Type 0 where
  pub set : List Jwk
  pub fetched_at : ℕ  -- in nanoseconds

-- The keys that are cached stand apart, since they change.
pub record OidcClient : Type 0 where
  pub meta : IssuerMetadata
  pub client_id : String
  pub client_secret : String
  pub redirect_uri : String
  pub scope : String
  pub algorithms : List Algorithm

abbrev pub seconds : ℕ → ℕ
seconds n = n * 1000000000

abbrev pub jwks_min_refresh : ℕ
jwks_min_refresh = seconds 60

abbrev pub jwks_max_age : ℕ
jwks_max_age = seconds 3600

-- Whether the set has the key, if one is asked for.
unfoldable pub serves_kid : Option String → List Jwk → Bool
serves_kid none set = true
serves_kid (some kid) set = elim (find_kid kid set) [ none ↦ false | some jwk ↦ true ]

unfoldable pub cached_keys : ℕ → Option String → Option CachedJwks → Option (List Jwk)
cached_keys now kid none = none
cached_keys now kid (some cached) =
    if leb jwks_max_age (now - cached.fetched_at)
    then none
    else if serves_kid kid cached.set || ltb (now - cached.fetched_at) jwks_min_refresh
    then some cached.set
    else none

-- `fetched` is what a fetch gives if one is made, and `done` when that is stored.
unfoldable pub keys_for :
    ℕ
    → ℕ
    → Option String
    → Result OidcError (List Jwk)
    → Option CachedJwks
    → Result OidcError (List Jwk) × Option CachedJwks
keys_for now done kid fetched cache = elim (cached_keys now kid cache) [
  | some set ↦ (ok set, cache)
  | none ↦ elim fetched [
    | err e ↦ (err e, cache)
    | ok set ↦ (
      elim kid [
        | none ↦ ok set
        | some k ↦ if serves_kid (some k) set then ok set else err (unknown_key k)
      ],
      some (record { set = set; fetched_at = done }),
    )
  ]
]

unfoldable pub new :
    Crates → IssuerMetadata → String → String → String → Option String → Result OidcError OidcClient
new c meta client_id client_secret redirect_uri scope = do
  algorithms ← signing_algorithms c meta
  ok (record {
    meta = meta;
    client_id = client_id;
    client_secret = client_secret;
    redirect_uri = redirect_uri;
    scope = elim scope [ none ↦ "openid email profile" | some s ↦ s ];
    algorithms = algorithms;
  })

-- The pairs of the authorization URL, from the random texts and the challenge of the verifier.
unfoldable pub authorize_pairs :
    OidcClient → (String → String) → String → String → String → List (String × String)
authorize_pairs client pkce_challenge_s256 state nonce pkce_verifier =
    ("client_id", client.client_id)
    ∷ ("redirect_uri", client.redirect_uri)
    ∷ ("response_type", "code")
    ∷ ("scope", client.scope)
    ∷ ("state", state)
    ∷ ("nonce", nonce)
    ∷ ("code_challenge", pkce_challenge_s256 pkce_verifier)
    ∷ ("code_challenge_method", "S256")
    ∷ []

unfoldable pub token_form : OidcClient → String → String → List (String × String)
token_form client code pkce_verifier =
    ("grant_type", "authorization_code")
    ∷ ("code", code)
    ∷ ("redirect_uri", client.redirect_uri)
    ∷ ("client_id", client.client_id)
    ∷ ("client_secret", client.client_secret)
    ∷ ("code_verifier", pkce_verifier)
    ∷ []

-- Error bodies are left out.
unfoldable pub read_token : Documents → Result SafeFetchError SafeResponse → Result OidcError String
read_token docs (err e) = err token_request
read_token docs (ok response) =
    if not (response.status == 200)
    then err (token_endpoint_failed response.status)
    else elim (docs.token response.body) [
      | none ↦ err (token_endpoint_failed response.status)
      | some token ↦ ok_or token missing_id_token
    ]

unfoldable pub expectations : OidcClient → String → IdTokenExpectations
expectations client nonce = record {
  issuer = without_slashes client.meta.issuer;
  client_id = client.client_id;
  nonce = nonce;
  algorithms = client.algorithms;
}

module _ (c : Crates) (docs : Documents) (client : OidcClient) where
  unfoldable pub fetch_keys : Network → Bool → Result OidcError (List Jwk)
  fetch_keys net timed_out =
      read_answer jwks_failed docs.jwks (safe_get net timed_out client.meta.jwks_uri default_opts)

  unfoldable pub finish_login :
      ℤ → String → String → Result OidcError (List Jwk) → Result OidcError (OidcIdentity × Fields)
  finish_login unix_now nonce token keys = do
    jwks ← keys
    claims ← validate_id_token c unix_now token jwks (expectations client nonce)
    ok (identity_from_claims client.meta.issuer claims, claims)

  -- With the id_token of the token endpoint.
  unfoldable pub login_with :
      ℕ
      → ℕ
      → ℤ
      → String
      → String
      → Result OidcError (List Jwk)
      → Option CachedJwks
      → Result OidcError (OidcIdentity × Fields) × Option CachedJwks
  login_with now done unix_now nonce token fetched cache = elim (c.decode_header token) [
    | none ↦ (err id_token, cache)
    | some header ↦
        let (keys, cache') = keys_for now done header.kid fetched cache in
        (finish_login unix_now nonce token keys, cache')
  ]

  -- The token endpoint is posted the form; the second network serves the keys. The result, and the
  -- cached keys after it.
  unfoldable pub exchange_code :
      (List (String × String) → Network)
      → Network
      → Bool
      → ℕ
      → ℕ
      → ℤ
      → String
      → String
      → String
      → Option CachedJwks
      → Result OidcError (OidcIdentity × Fields) × Option CachedJwks
  exchange_code post net timed_out now done unix_now code pkce_verifier nonce cache =
      elim (read_token docs (
        safe_post_form (post (token_form client code pkce_verifier)) timed_out
          client.meta.token_endpoint default_opts)) [
            | err e ↦ (err e, cache)
            | ok token ↦ login_with now done unix_now nonce token (fetch_keys net timed_out) cache
          ]
