-- ===== src/License/Examples.antt =====
-- crates/license: the theorems at a concrete license.
use kit.Prelude.{true, some, [], ◌∷◌, ◌≡◌, refl, any, ℕ_discrete, ok}
use kit.Prelude.Int.{ℤ, pos}
use kit.Prelude.Tokens.{Jwt}
use kit.Prelude.Tokens.Single.{String-discrete, ℤ-discrete, single}
use kit.License.{
  Claims, registered, Chrono, License, customer, team, to_claims, sign, allows, is_admin,
}

abbrev Claims-discrete : Discrete Claims
Claims-discrete = hlevel (ℕ_discrete, ℤ-discrete, String-discrete)

-- Moments in whole seconds.
abbrev whole : Chrono
whole = record { DateTime = ℤ; timestamp = λ t. t; from_timestamp = λ t. some t }

abbrev acme : License whole
acme = record {
  id = "lic_1";
  product = "ferrvault";
  org = some "acme";
  kind = customer;
  tier = team;
  seats = some 25;
  features = "sso" ∷ [];
  issued_at = pos 100;
  expires_at = pos 900;
}

abbrev acme_claims : Claims
acme_claims = record {
  sub = "lic_1";
  iss = "ferrlabs-licensing";
  aud = "ferrvault";
  exp = pos 900;
  iat = pos 100;
  nbf = pos 100;
  kind = customer;
  tier = team;
  org = some "acme";
  seats = some 25;
  features = "sso" ∷ [];
}

abbrev crate_jwt : Jwt Claims
crate_jwt = single registered Claims-discrete acme_claims

sign_test : sign whole crate_jwt tt acme ≡ ok (7 ∷ [])
unfolding sign to_claims ℕ_discrete
sign_test = refl

sso_test : allows whole acme "sso" ≡ true
unfolding allows is_admin any
sso_test = refl
