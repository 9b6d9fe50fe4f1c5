-- ===== src/License.antt =====
-- crates/license/src/lib.rs: offline license keys. The crates jsonwebtoken and chrono are parameters;
-- the clock is an argument.
pub mod Verified
mod Examples
use kit.Prelude.{
  ℕ, Bool, true, false, ◌||◌, Option, none, some, String, List, [], ◌∷◌, any, if◌then◌else◌, str_eq,
  Result, ok, err, ◌>>=◌, ok_or,
}
use kit.Prelude.Int.{ℤ}
use kit.Prelude.Tokens.{
  Jwt, Validation, Registered, ErrorKind, eddsa, exp_claim, iss_claim, aud_claim, nbf_claim,
  expired_signature, immature_signature, invalid_issuer, invalid_audience,
}

pub data LicenseError : Type 0 where
  invalid expired not_yet_valid wrong_issuer wrong_product key_load internal : LicenseError

pub data LicenseKind : Type 0 where
  admin customer : LicenseKind

pub data LicenseTier : Type 0 where
  free pro team enterprise : LicenseTier

pub record Claims : Type 0 where
  pub sub : String
  pub iss : String
  pub aud : String
  pub exp : ℤ
  pub iat : ℤ
  pub nbf : ℤ
  pub kind : LicenseKind
  pub tier : LicenseTier
  pub org : Option String
  pub seats : Option ℕ  -- u32
  pub features : List String

abbrev pub registered : Claims → Registered
registered c = record { iss = some c.iss; aud = some c.aud; exp = some c.exp; nbf = some c.nbf }

-- `chrono::DateTime<Utc>`: a moment, with the whole second that it lies in.
pub record Chrono : Type 1 where
  pub DateTime : Type 0
  pub timestamp : DateTime → ℤ
  pub from_timestamp : ℤ → Option DateTime

unfoldable pub map_jwt_err : ErrorKind → LicenseError
map_jwt_err expired_signature = expired
map_jwt_err immature_signature = not_yet_valid
map_jwt_err invalid_issuer = wrong_issuer
map_jwt_err invalid_audience = wrong_product
map_jwt_err e = invalid

abbrev pub issuer : String
issuer = "ferrlabs-licensing"

unfoldable pub validation_for : String → Validation
validation_for product = record {
  algorithm = eddsa;
  iss = some issuer;
  aud = some product;
  required_spec_claims = exp_claim ∷ iss_claim ∷ aud_claim ∷ nbf_claim ∷ [];
  validate_exp = true;
  validate_nbf = true;
}

module _ (ch : Chrono) where
  -- `License`, and `LicenseSpec`, which has the same fields.
  pub record License : Type 0 where
    pub id : String
    pub product : String
    pub org : Option String
    pub kind : LicenseKind
    pub tier : LicenseTier
    pub seats : Option ℕ
    pub features : List String
    pub issued_at : ch.DateTime
    pub expires_at : ch.DateTime

  unfoldable pub is_admin : License → Bool
  is_admin l = elim l.kind [ admin ↦ true | customer ↦ false ]

  unfoldable pub allows : License → String → Bool
  allows l feature = is_admin l || any (λ f. str_eq f feature) l.features

  unfoldable pub seat_limit : License → Option ℕ
  seat_limit l = if is_admin l then none else l.seats

  unfoldable pub from_claims : Claims → Result LicenseError License
  from_claims c = do
    issued_at ← ok_or (ch.from_timestamp c.iat) invalid
    expires_at ← ok_or (ch.from_timestamp c.exp) invalid
    ok (record {
      id = c.sub;
      product = c.aud;
      org = c.org;
      kind = c.kind;
      tier = c.tier;
      seats = c.seats;
      features = c.features;
      issued_at = issued_at;
      expires_at = expires_at;
    })

  unfoldable pub to_claims : License → Claims
  to_claims spec = record {
    sub = spec.id;
    iss = issuer;
    aud = spec.product;
    exp = ch.timestamp spec.expires_at;
    iat = ch.timestamp spec.issued_at;
    nbf = ch.timestamp spec.issued_at;
    kind = spec.kind;
    tier = spec.tier;
    org = spec.org;
    seats = spec.seats;
    features = spec.features;
  }

  module _ (j : Jwt Claims) where
    unfoldable pub verify : j.DecodingKey → ℤ → List ℕ → String → Result LicenseError License
    verify decoding_key now token product =
        elim (j.decode now token decoding_key (validation_for product)) [
          | err e ↦ err (map_jwt_err e)
          | ok claims ↦ from_claims claims
        ]

    unfoldable pub sign : j.EncodingKey → License → Result LicenseError (List ℕ)
    sign encoding_key spec = ok_or (j.encode eddsa (to_claims spec) encoding_key) internal

    -- `DecodingKey::from_ed_pem` is the argument; the verifier is its key.
    unfoldable pub verifier_from_ed25519_pem :
        (List ℕ → Option j.DecodingKey) → List ℕ → Result LicenseError j.DecodingKey
    verifier_from_ed25519_pem public public_pem = ok_or (public public_pem) key_load

    unfoldable pub signer_from_ed25519_pem :
        (List ℕ → Option j.EncodingKey) → List ℕ → Result LicenseError j.EncodingKey
    signer_from_ed25519_pem private private_pem = ok_or (private private_pem) key_load
