-- ===== src/Auth/Jwt.antt =====
-- crates/auth/src/jwt.rs and middleware.rs: access tokens, and the user that a request carries. The
-- crate jsonwebtoken is a parameter; the clock is an argument.
pub mod Keys
pub mod Bearer
mod Examples
use kit.Prelude.{
  ℕ, ◌*◌, ◌^◌, ◌-◌, ltb, Bool, true, false, not, ◌||◌, Option, none, some, String, List, [], ◌∷◌,
  ◌++◌, if◌then◌else◌, str_eq, Result, ok, err, ◌>>=◌, ok_or, drop, length,
}
use kit.Prelude.Int.{ℤ, pos, add_i64}
use kit.Prelude.Text.{starts_with}
use kit.Prelude.Tokens.{
  Jwt, Validation, Registered, ErrorKind, ClaimName, eddsa, exp_claim, iss_claim, aud_claim,
  invalid_signature, expired_signature, immature_signature, invalid_issuer, invalid_audience,
  missing_required_claim,
}

pub data JwtError : Type 0 where
  key_load expired not_yet_valid wrong_issuer wrong_audience verify_only invalid internal : JwtError

pub record Claims : Type 0 where
  pub sub : ℕ  -- a Uuid
  pub iss : String
  pub exp : ℤ
  pub iat : ℤ
  pub aud : Option String
  pub nbf : Option ℤ
  pub org : Option ℕ

abbrev pub registered : Claims → Registered
registered c = record { iss = some c.iss; aud = c.aud; exp = some c.exp; nbf = c.nbf }

unfoldable pub is_claim_failure : ErrorKind → Bool
is_claim_failure invalid_signature = false
is_claim_failure e = true

unfoldable pub map_error : ErrorKind → JwtError
map_error expired_signature = expired
map_error immature_signature = not_yet_valid
map_error invalid_issuer = wrong_issuer
map_error invalid_audience = wrong_audience
map_error (missing_required_claim claim) = if str_eq claim "aud" then wrong_audience else invalid
map_error e = invalid

pub record AuthUser : Type 0 where
  pub user_id : ℕ
  pub active_org : Option ℕ

-- `ApiError::Unauthorized`, the only error of this file.
pub data ApiError : Type 0 where
  unauthorized : ApiError

unfoldable pub require_org : AuthUser → Result ApiError ℕ
require_org u = ok_or u.active_org unauthorized

abbrev pub bearer : List ℕ
bearer = b'B' ∷ b'e' ∷ b'a' ∷ b'r' ∷ b'e' ∷ b'r' ∷ b' ' ∷ []

-- The argument is the header Authorization, if there is one that is text.
unfoldable pub bearer_token : Option (List ℕ) → Option (List ℕ)
bearer_token none = none
bearer_token (some value) =
    if starts_with value bearer then some (drop (length bearer) value) else none

abbrev pub default_access_ttl : ℕ
default_access_ttl = 15 * 60

-- `i64::try_from(secs).unwrap_or(i64::MAX)`.
unfoldable pub to_i64 : ℕ → ℤ
to_i64 secs = if ltb secs (2 ^ 63) then pos secs else pos (2 ^ 63 - 1)

module _ (j : Jwt Claims) where
  pub record JwtConfig : Type 0 where
    pub encoding_key : Option j.EncodingKey
    pub current : j.DecodingKey  -- the first of the decoding keys, which are not empty
    pub previous : List j.DecodingKey
    pub issuer : String
    pub audience : Option String
    pub access_ttl_seconds : ℤ

  unfoldable pub with_audience : String → JwtConfig → JwtConfig
  with_audience audience c = record c { audience = some audience }

  -- The push of `with_previous_public_pem`.
  unfoldable pub with_previous : j.DecodingKey → JwtConfig → JwtConfig
  with_previous key c = record c { previous = c.previous ++ key ∷ [] }

  -- `EncodingKey::from_ed_pem` and `DecodingKey::from_ed_pem` are the arguments `private` and `public`.
  unfoldable pub from_ed25519_pems :
      (List ℕ → Option j.EncodingKey)
      → (List ℕ → Option j.DecodingKey)
      → List ℕ
      → List ℕ
      → String
      → ℕ
      → Result JwtError JwtConfig
  from_ed25519_pems private public private_pem public_pem issuer access_ttl = do
    encoding_key ← ok_or (private private_pem) key_load
    decoding_key ← ok_or (public public_pem) key_load
    ok (record {
      encoding_key = some encoding_key;
      current = decoding_key;
      previous = [];
      issuer = issuer;
      audience = none;
      access_ttl_seconds = to_i64 access_ttl;
    })

  unfoldable pub verifier_from_public_pem :
      (List ℕ → Option j.DecodingKey) → List ℕ → String → Result JwtError JwtConfig
  verifier_from_public_pem public public_pem issuer = do
    decoding_key ← ok_or (public public_pem) key_load
    ok (record {
      encoding_key = none;
      current = decoding_key;
      previous = [];
      issuer = issuer;
      audience = none;
      access_ttl_seconds = to_i64 default_access_ttl;
    })

  unfoldable pub with_previous_public_pem :
      (List ℕ → Option j.DecodingKey) → List ℕ → JwtConfig → Result JwtError JwtConfig
  with_previous_public_pem public public_pem c = do
    decoding_key ← ok_or (public public_pem) key_load
    ok (with_previous decoding_key c)

  unfoldable pub validation : JwtConfig → Validation
  validation c = record {
    algorithm = eddsa;
    iss = some c.issuer;
    aud = c.audience;
    required_spec_claims = elim c.audience [
      | some audience ↦ exp_claim ∷ iss_claim ∷ aud_claim ∷ []
      | none ↦ exp_claim ∷ iss_claim ∷ []
    ];
    validate_exp = true;
    validate_nbf = true;
  }

  -- A sum of `i64` wraps in a release build.
  unfoldable pub claims_at : JwtConfig → ℤ → ℕ → Option ℕ → Option String → Claims
  claims_at config now user_id org audience = record {
    sub = user_id;
    iss = config.issuer;
    exp = add_i64 now config.access_ttl_seconds;
    iat = now;
    aud = audience;
    nbf = none;
    org = org;
  }

  unfoldable pub issue_token_for :
      JwtConfig → ℤ → ℕ → Option ℕ → Option String → Result JwtError (List ℕ)
  issue_token_for config now user_id org audience = elim config.encoding_key [
    | none ↦ err verify_only
    | some encoding_key ↦
        ok_or (j.encode eddsa (claims_at config now user_id org audience) encoding_key) internal
  ]

  unfoldable pub issue_token : JwtConfig → ℤ → ℕ → Option ℕ → Result JwtError (List ℕ)
  issue_token config now user_id org = issue_token_for config now user_id org config.audience

  -- The failure that is kept: the first one, until a claim is refused.
  unfoldable pub keep_error : Option ErrorKind → ErrorKind → ErrorKind
  keep_error none error = error
  keep_error (some best) error = if is_claim_failure error then error else best

  -- The loop over the keys that are left, from the failure so far.
  unfoldable pub try_keys :
      ℤ
      → List ℕ
      → Validation
      → Option ErrorKind
      → List j.DecodingKey
      → Result (Option ErrorKind) Claims
  try_keys now token v best [] = err best
  try_keys now token v best (key ∷ keys) = elim (j.decode now token key v) [
    | ok claims ↦ ok claims
    | err error ↦ try_keys now token v (some (keep_error best error)) keys
  ]

  -- The end of the loop. There is a key, so that there is a failure, if there are no claims.
  unfoldable pub outcome : Result (Option ErrorKind) Claims → Result JwtError Claims
  outcome (ok claims) = ok claims
  outcome (err none) = err invalid
  outcome (err (some best)) = err (map_error best)

  unfoldable pub verify_token : JwtConfig → ℤ → List ℕ → Result JwtError Claims
  verify_token config now token =
      outcome (try_keys now token (validation config) none (config.current ∷ config.previous))

  unfoldable pub extract : JwtConfig → ℤ → Option (List ℕ) → Result ApiError AuthUser
  extract config now authorization = elim (bearer_token authorization) [
    | none ↦ err unauthorized
    | some token ↦ elim (verify_token config now token) [
      | err e ↦ err unauthorized
      | ok claims ↦ ok (record { user_id = claims.sub; active_org = claims.org })
    ]
  ]
