-- ===== src/Oauth/Oidc.antt =====
-- crates/oauth/src/oidc.rs: an issuer's metadata, and what an id_token must pass. The crates
-- jsonwebtoken and url are a parameter.
pub mod IdToken
pub mod Client
use kit.Prelude.{
  ℕ, zero, suc, Bool, true, false, not, ◌||◌, ◌&&◌, Option, none, some, String, List, [], ◌∷◌, any,
  filter, filter_map, ◌==◌, ltb, if◌then◌else◌, str_eq, Result, ok, err, ◌>>=◌, ok_or,
}
use kit.Prelude.Int.{ℤ}
use kit.Prelude.Json.{Value, Fields, get, as_str, as_bool, as_array, items_length, Items}
use kit.Prelude.Strings.{◌+++◌, is_empty, trim, trim_end_by}
use kit.Prelude.Tokens.{
  Algorithm, eddsa, rs256, rs384, rs512, es256, es384, ps256, ps384, ps512, hs256, hs384, hs512,
}
use kit.Http.Fetch.{Network, SafeFetchError}

-- The text of another crate's error is left out.
pub data OidcError : Type 0 where
  issuer_url unknown_key : String → OidcError
  discovery_failed jwks_failed no_usable_algorithm missing_id_token : OidcError
  token_request id_token : OidcError
  issuer_mismatch endpoint : String → String → OidcError
  token_endpoint_failed : ℕ → OidcError
  unexpected_algorithm nonce_mismatch azp_mismatch : OidcError

pub record IssuerMetadata : Type 0 where
  pub issuer : String
  pub authorization_endpoint : String
  pub token_endpoint : String
  pub jwks_uri : String
  pub id_token_signing_alg_values_supported : List String

pub record OidcIdentity : Type 0 where
  pub issuer : String
  pub subject : String
  pub email : Option String
  pub email_verified : Bool
  pub name : Option String

pub record IdTokenExpectations : Type 0 where
  pub issuer : String
  pub client_id : String
  pub nonce : String
  pub algorithms : List Algorithm

pub record Header : Type 0 where
  pub alg : Algorithm
  pub kid : Option String

-- The algorithm that a key declares, if it does, and none of those for signatures if it is another.
pub data KeyAlgorithm : Type 0 where
  undeclared not_for_signatures : KeyAlgorithm
  declared : Algorithm → KeyAlgorithm

pub record Jwk : Type 0 where
  pub kid : Option String
  pub key_algorithm : KeyAlgorithm

-- jsonwebtoken and serde_json. `decode` is given the time, the algorithm, the issuer and the audience;
-- it has a leeway of 60 seconds and requires the claims iss, aud, exp and sub.
pub record Crates : Type 1 where
  pub Key : Type 0
  pub algorithm_from_str : String → Option Algorithm
  pub decode_header : String → Option Header
  pub from_jwk : Jwk → Option Key
  pub decode : ℤ → String → Key → Algorithm → String → String → Option Fields

abbrev pub without_slashes : String → String
without_slashes = trim_end_by (λ c. c == b'/')

-- `url`, with the parts that are read here only.
module _ (net : Network) (query fragment : net.Url → Option String) where
  abbrev pub is_some : Option String → Bool
  is_some none = false
  is_some (some s) = true

  unfoldable pub normalize_issuer : String → Result OidcError String
  normalize_issuer raw = elim (net.parse (trim raw)) [
    | err e ↦ err (issuer_url raw)
    | ok parsed ↦
        if not (str_eq (net.scheme parsed) "https")
          || (is_some (query parsed) || is_some (fragment parsed))
        then err (issuer_url raw)
        else if not (is_some (net.host_str parsed))
        then err (issuer_url raw)
        else ok (without_slashes (net.to_string parsed))
  ]

unfoldable pub discovery_url : String → String
discovery_url issuer = issuer +++ "/.well-known/openid-configuration"

module _ (net : Network) where
  unfoldable pub check_endpoints : List (String × String) → Result OidcError (Unit {0})
  check_endpoints [] = ok tt
  check_endpoints ((name, value) ∷ endpoints) = elim (net.parse value) [
    | err e ↦ err (endpoint name value)
    | ok url ↦
        if not (str_eq (net.scheme url) "https")
        then err (endpoint name value)
        else check_endpoints endpoints
  ]

  unfoldable pub check_metadata : String → IssuerMetadata → Result OidcError (Unit {0})
  check_metadata expected_issuer meta =
      if not (str_eq (without_slashes meta.issuer) expected_issuer)
      then err (issuer_mismatch expected_issuer meta.issuer)
      else check_endpoints (
          ("authorization_endpoint", meta.authorization_endpoint)
          ∷ ("token_endpoint", meta.token_endpoint)
          ∷ ("jwks_uri", meta.jwks_uri)
          ∷ [])

unfoldable pub is_asymmetric : Algorithm → Bool
is_asymmetric hs256 = false
is_asymmetric hs384 = false
is_asymmetric hs512 = false
is_asymmetric alg = true

unfoldable pub code_of : Algorithm → ℕ
code_of hs256 = 0
code_of hs384 = 1
code_of hs512 = 2
code_of rs256 = 3
code_of rs384 = 4
code_of rs512 = 5
code_of es256 = 6
code_of es384 = 7
code_of ps256 = 8
code_of ps384 = 9
code_of ps512 = 10
code_of eddsa = 11

-- `==` on algorithms.
unfoldable pub alg_eq : Algorithm → Algorithm → Bool
unfolding code_of
alg_eq a b = code_of a == code_of b

-- The key of that id.
unfoldable pub find_kid : String → List Jwk → Option Jwk
find_kid kid [] = none
find_kid kid (jwk ∷ jwks) =
    let rest = find_kid kid jwks in
    if elim jwk.kid [ none ↦ false | some k ↦ str_eq k kid ] then some jwk else rest

-- The key that a header without an id means: the only one.
unfoldable pub only_key : List Jwk → Option Jwk
only_key [] = none
only_key (only ∷ []) = some only
only_key (first ∷ second ∷ more) = none

unfoldable pub candidate : List Jwk → Option String → Result OidcError Jwk
candidate jwks (some kid) = ok_or (find_kid kid jwks) (unknown_key kid)
candidate jwks none = ok_or (only_key jwks) (unknown_key "<no kid>")

unfoldable pub check_key_algorithm : KeyAlgorithm → Algorithm → Result OidcError (Unit {0})
check_key_algorithm undeclared alg = ok tt
check_key_algorithm not_for_signatures alg = err unexpected_algorithm
check_key_algorithm (declared a) alg = if alg_eq a alg then ok tt else err unexpected_algorithm

unfoldable pub select_key : List Jwk → Header → Result OidcError Jwk
select_key jwks header = do
  jwk ← candidate jwks header.kid
  check_key_algorithm jwk.key_algorithm header.alg >>= λ u. ok jwk

abbrev pub is_str : Option String → String → Bool
is_str none t = false
is_str (some s) t = str_eq s t

abbrev pub is_nonempty : Option String → Bool
is_nonempty none = false
is_nonempty (some s) = not (is_empty s)

abbrev pub is_several : Option Items → Bool
is_several none = false
is_several (some auds) = ltb 1 (items_length auds)

unfoldable pub check_claims : Fields → IdTokenExpectations → Result OidcError (Unit {0})
check_claims claims x =
    if not (is_str (as_str (get "nonce" claims)) x.nonce)
    then err nonce_mismatch
    else if not (is_nonempty (as_str (get "sub" claims)))
    then err id_token
    else if is_several (as_array (get "aud" claims))
        && not (is_str (as_str (get "azp" claims)) x.client_id)
    then err azp_mismatch
    else ok tt

unfoldable pub identity_from_claims : String → Fields → OidcIdentity
identity_from_claims issuer claims = record {
  issuer = issuer;
  subject = elim (as_str (get "sub" claims)) [ none ↦ "" | some s ↦ s ];
  email = as_str (get "email" claims);
  email_verified = elim (as_bool (get "email_verified" claims)) [ none ↦ false | some b ↦ b ];
  name = as_str (get "name" claims);
}

module _ (c : Crates) where
  unfoldable pub signing_algorithms : IssuerMetadata → Result OidcError (List Algorithm)
  signing_algorithms meta = elim meta.id_token_signing_alg_values_supported [
    | [] ↦ ok (rs256 ∷ [])
    | name ∷ names ↦
        let usable = filter is_asymmetric (filter_map c.algorithm_from_str (name ∷ names)) in
        elim usable [ [] ↦ err no_usable_algorithm | a ∷ algs ↦ ok (a ∷ algs) ]
  ]

  unfoldable pub check_algorithm : Algorithm → List Algorithm → Result OidcError (Unit {0})
  check_algorithm alg algorithms =
      if any (alg_eq alg) algorithms then ok tt else err unexpected_algorithm

  -- The end of `validate_id_token`, under the key that was selected.
  unfoldable pub validate_under :
      ℤ → String → IdTokenExpectations → Header → Jwk → Result OidcError Fields
  validate_under now token x header jwk = do
    key ← ok_or (c.from_jwk jwk) id_token
    claims ← ok_or (c.decode now token key header.alg x.issuer x.client_id) id_token
    check_claims claims x >>= λ u. ok claims

  unfoldable pub validate_id_token :
      ℤ → String → List Jwk → IdTokenExpectations → Result OidcError Fields
  validate_id_token now token jwks x = do
    header ← ok_or (c.decode_header token) id_token
    check_algorithm header.alg x.algorithms >>= λ u.
        select_key jwks header >>= λ jwk. validate_under now token x header jwk
