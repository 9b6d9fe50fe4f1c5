-- ===== src/Auth/Jwt/Examples.antt =====
-- crates/auth: the theorems on access tokens at a concrete config.
use kit.Prelude.{◌-◌, ◌^◌, true, false, none, some, [], ◌∷◌, ◌++◌, ◌≡◌, refl, ℕ_discrete, ok, err}
use kit.Prelude.Int.{pos, ltb_ℤ, add_i64}
use kit.Prelude.Tokens.{Jwt}
use kit.Prelude.Tokens.Single.{String-discrete, ℤ-discrete, single, single-IsPair}
use kit.Auth.Jwt.{
  Claims, registered, JwtConfig, validation, claims_at, issue_token_for, issue_token, try_keys,
  outcome, verify_token, with_previous, with_previous_public_pem, bearer, extract, map_error,
}
use kit.Auth.Jwt.Keys.{verify_by_signer}
use kit.Auth.Jwt.Bearer.{extract-issue_token}

abbrev Claims-discrete : Discrete Claims
Claims-discrete = hlevel (ℕ_discrete, ℤ-discrete, String-discrete)

abbrev ada : Claims
ada = record {
  sub = 3;
  iss = "kit";
  exp = pos 1900;
  iat = pos 1000;
  aud = some "vault";
  nbf = none;
  org = some 8;
}

abbrev crate_jwt : Jwt Claims
crate_jwt = single registered Claims-discrete ada

-- Key 1 signs; key 2 has taken over since.
abbrev rotating : JwtConfig crate_jwt
rotating = record {
  encoding_key = some tt;
  current = 2;
  previous = 1 ∷ [];
  issuer = "kit";
  audience = some "vault";
  access_ttl_seconds = pos 900;
}

issued_test : issue_token crate_jwt rotating (pos 1000) 3 (some 8) ≡ ok (7 ∷ [])
unfolding issue_token issue_token_for claims_at add_i64 ℕ_discrete
issued_test = refl

live_test : ltb_ℤ (add_i64 (pos 1000) (pos 900)) (pos 1900) ≡ false
unfolding add_i64
live_test = refl

over_test : ltb_ℤ (add_i64 (pos 1000) (pos 900)) (pos 1901) ≡ true
unfolding add_i64
over_test = refl

extract-issue_token_example :
    extract crate_jwt rotating (pos 1900) (some (bearer ++ 7 ∷ []))
    ≡ ok (record { user_id = 3; active_org = some 8 })
extract-issue_token_example =
    extract-issue_token crate_jwt rotating (pos 1000) (pos 1900) 3 (some 8) (7 ∷ []) (2 ∷ []) [] 1
      (λ signing e. single-IsPair registered Claims-discrete ada) refl (refl, tt) tt issued_test
      live_test

verified_test : verify_token crate_jwt rotating (pos 1500) (7 ∷ []) ≡ ok ada
unfolding verify_token outcome try_keys validation
verified_test = refl

verify_by_signer_example :
    verify_token crate_jwt rotating (pos 1500) (7 ∷ [])
    ≡ elim (crate_jwt.decode (pos 1500) (7 ∷ []) 1 (validation crate_jwt rotating)) [
      | ok c ↦ ok c
      | err e ↦ err (map_error e)
    ]
verify_by_signer_example =
    verify_by_signer crate_jwt rotating (pos 1500) (7 ∷ []) (2 ∷ []) [] 1 refl (refl, tt) tt

abbrev kept : JwtConfig crate_jwt
kept = record rotating { previous = 1 ∷ 5 ∷ [] }

read_test : with_previous_public_pem crate_jwt (λ pem. some 5) [] rotating ≡ ok kept
unfolding with_previous_public_pem with_previous
read_test = refl

-- A lifetime that was asked for as the largest there is.
abbrev ghost : Claims
unfolding add_i64
ghost = record ada { exp = add_i64 (pos 1000) (pos (2 ^ 63 - 1)) }

abbrev ghost_jwt : Jwt Claims
ghost_jwt = single registered Claims-discrete ghost

abbrev endless : JwtConfig ghost_jwt
endless = record {
  encoding_key = some tt;
  current = 1;
  previous = [];
  issuer = "kit";
  audience = some "vault";
  access_ttl_seconds = pos (2 ^ 63 - 1);
}
