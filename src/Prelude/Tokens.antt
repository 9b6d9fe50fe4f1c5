-- ===== src/Prelude/Tokens.antt =====
-- The crate `jsonwebtoken` as the crates auth, license and oauth use it: an interface, with what its
-- documentation says of `decode` and `encode`. Times are seconds since the epoch.
pub mod Single
use Prim.Native.Nat.{ℕ}
use Prim.Native.String.{String}
use mathlib.Core.Path.{◌≡◌, refl}
use mathlib.Core.Logic.{◌≢◌}
use mathlib.Core.Bool.{Bool, true, false, not}
use mathlib.Core.List.{List}
use mathlib.Core.Option.{Option, none, some}
use kit.Prelude.Tests.{Result, ok, err}
use kit.Prelude.Rows.{AllRows}
use kit.Prelude.Int.{ℤ, ltb_ℤ}

pub data Algorithm : Type 0 where
  eddsa rs256 rs384 rs512 es256 es384 ps256 ps384 ps512 hs256 hs384 hs512 : Algorithm

pub data ErrorKind : Type 0 where
  invalid_signature expired_signature immature_signature invalid_issuer invalid_audience : ErrorKind
  missing_required_claim : String → ErrorKind
  other : ErrorKind

-- The registered claims, as far as a token has them.
pub record Registered : Type 0 where
  pub iss : Option String
  pub aud : Option String
  pub exp : Option ℤ
  pub nbf : Option ℤ

pub data ClaimName : Type 0 where
  exp_claim iss_claim aud_claim nbf_claim : ClaimName

pub record Validation : Type 0 where
  pub algorithm : Algorithm
  pub iss : Option String
  pub aud : Option String
  pub required_spec_claims : List ClaimName
  pub validate_exp : Bool
  pub validate_nbf : Bool

abbrev pub IsPresent : Registered → ClaimName → Type 0
IsPresent r ClaimName.exp_claim = r.exp ≢ none
IsPresent r ClaimName.iss_claim = r.iss ≢ none
IsPresent r ClaimName.aud_claim = r.aud ≢ none
IsPresent r ClaimName.nbf_claim = r.nbf ≢ none

-- What is expected, a token that has the claim has.
abbrev pub Agrees : Option String → Option String → Type 0
Agrees none claim = Unit
Agrees (some expected) none = Unit
Agrees (some expected) (some claim) = claim ≡ expected

-- A token with an audience is refused where none is expected.
abbrev pub AgreesAud : Option String → Option String → Type 0
AgreesAud none claim = claim ≡ none
AgreesAud (some expected) claim = Agrees (some expected) claim

abbrev pub NotBefore : Option ℤ → ℤ → Type 0
NotBefore none now = Unit
NotBefore (some t) now = ltb_ℤ now t ≡ false

abbrev pub NotAfter : Option ℤ → ℤ → Type 0
NotAfter none now = Unit
NotAfter (some t) now = ltb_ℤ t now ≡ false

-- The rules of `Validation`, with no leeway.
pub record Passes (v : Validation) (now : ℤ) (r : Registered) : Type 0 where
  pub present : AllRows (IsPresent r) v.required_spec_claims
  pub issuer : Agrees v.iss r.iss
  pub audience : AgreesAud v.aud r.aud
  pub unexpired : v.validate_exp ≡ true → NotAfter r.exp now
  pub mature : v.validate_nbf ≡ true → NotBefore r.nbf now

-- The crate at one type of claims. A token is its bytes.
pub record Jwt (C : Type 0) : Type 1 where
  pub EncodingKey : Type 0
  pub DecodingKey : Type 0
  pub encode : Algorithm → C → EncodingKey → Option (List ℕ)
  pub decode : ℤ → List ℕ → DecodingKey → Validation → Result ErrorKind C

-- What its documentation says of it, for the registered claims that are read off the type of claims.
module _ {C : Type 0} (registered : C → Registered) (j : Jwt C) where
  -- What is decoded has passed the validation.
  abbrev pub Validates : Type 0
  Validates =
      (now : ℤ) (token : List ℕ) (key : j.DecodingKey) (v : Validation) (c : C)
      → j.decode now token key v ≡ ok c
      → Passes v now (registered c)

  -- The key that belongs to a signing key gives the claims back, if they pass.
  abbrev pub IsPair : j.EncodingKey → j.DecodingKey → Type 0
  IsPair signing key =
      (now : ℤ) (token : List ℕ) (v : Validation) (c : C)
      → j.encode v.algorithm c signing ≡ some token
      → Passes v now (registered c)
      → j.decode now token key v ≡ ok c

-- A token has the claims that it was made of and no others.
abbrev pub IsExact : {C : Type 0} (j : Jwt C) → Type 0
IsExact {C} j =
    (a : Algorithm) (signing : j.EncodingKey) (now : ℤ) (token : List ℕ) (key : j.DecodingKey)
    (v : Validation) (c c' : C)
    → j.encode a c signing ≡ some token
    → j.decode now token key v ≡ ok c'
    → c' ≡ c
