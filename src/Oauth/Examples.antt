-- ===== src/Oauth/Examples.antt =====
-- crates/oauth: tests, and the theorems at a concrete issuer.
use kit.Prelude.{
  ℕ, true, false, none, some, String, List, [], ◌∷◌, ◌≡◌, refl, arith, any, filter, filter_map,
  str_eq, eq_iff, ap, if◌then◌else◌, ok,
}
use kit.Prelude.Int.{ℤ, pos}
use kit.Prelude.Json.{Fields, str, field, end, get, as_str}
use kit.Prelude.Strings.{trim_end_by}
use kit.Prelude.Tokens.{Algorithm, es256, hs256}
use kit.Http.Address.{v4, is_public_unicast, is_public_unicast_v4, is_special_v4}
use kit.Http.Fetch.{
  Network, SocketAddr, safe_get, safe_get_inner, safe_post_form, safe_post_form_inner, get_loop,
  hop_once, pin, resolve_and_validate, validate, first_blocked, next_of, is_redirection,
  read_capped, read_chunks, within,
}
use kit.Oauth.Oidc.{
  IssuerMetadata, OidcIdentity, IdTokenExpectations, Jwk, undeclared, Crates, is_asymmetric, alg_eq,
  find_kid, candidate, check_key_algorithm, select_key, check_claims, identity_from_claims,
  signing_algorithms, check_algorithm, validate_under, validate_id_token,
}
use kit.Oauth.Oidc.Client.{
  Documents, CachedJwks, OidcClient, read_answer, serves_kid, cached_keys, keys_for, read_token,
  expectations, fetch_keys, finish_login, login_with, exchange_code,
}
use kit.Oauth.Oidc.Client.Refresh.{Call, replacements}
use kit.Oauth.Oidc.Client.Login.{LoggedIn, exchange_code_sound}
use kit.Oauth.Social.{google, OAuthUser, Profiles, OAuthClient, parse_user, fetch_user}

abbrev claims : Fields
claims = field "iss" (str "https://idp/") (field "nonce" (str "n") (field "sub" (str "u") end))

abbrev key : Jwk
key = record { kid = some "k1"; key_algorithm = undeclared }

-- One token, of these claims, signed by a private key or, if its text says so, by a shared secret.
abbrev crates : Crates
crates = record {
  Key = ℕ;
  algorithm_from_str = λ s. some es256;
  decode_header = λ t.
      if str_eq t "forged"
      then some (record { alg = hs256; kid = some "k1" })
      else some (record { alg = es256; kid = some "k1" });
  from_jwk = λ jwk. some 1;
  decode = λ now t k alg issuer id. if str_eq issuer "https://idp/" then some claims else none;
}

abbrev meta : IssuerMetadata
meta = record {
  issuer = "https://idp";
  authorization_endpoint = "https://idp/a";
  token_endpoint = "https://idp/t";
  jwks_uri = "https://idp/k";
  id_token_signing_alg_values_supported = "ES256" ∷ [];
}

abbrev x : IdTokenExpectations
x = record { issuer = "https://idp"; client_id = "c"; nonce = "n"; algorithms = es256 ∷ [] }

algorithms_test : signing_algorithms crates meta ≡ ok x.algorithms
unfolding signing_algorithms filter_map filter is_asymmetric
algorithms_test = refl

abbrev stored : CachedJwks
stored = record { set = key ∷ []; fetched_at = 10 }

-- Two unknown ids, half a minute and two minutes later.
abbrev calls : List Call
calls =
    record { now = 30000000000; done = 30000000001; kid = some "k2"; fetched = ok (key ∷ []) }
    ∷ record { now = 120000000000; done = 120000000001; kid = some "k2"; fetched = ok (key ∷ []) }
    ∷ []

replacements_test : replacements calls (some stored) ≡ 1
unfolding cached_keys serves_kid find_kid keys_for
replacements_test = refl

abbrev public_addr : SocketAddr
public_addr = record { ip = v4 (record { o0 = 93; o1 = 184; o2 = 215; o3 = 14 }); port = 443 }

-- A network in which every address answers with a page of one byte.
abbrev web : Network
web = record {
  Url = String;
  parse = λ s. ok s;
  scheme = λ u. "https";
  host_str = λ u. some u;
  port_or_known_default = λ u. some 443;
  join = λ u s. ok s;
  to_string = λ u. u;
  parse_ip = λ s. none;
  lookup_host = λ hop host port. ok (public_addr ∷ []);
  send = λ hop addr u.
      ok (record { status = 200; url = u; location = none; chunks = ok (1 ∷ []) ∷ [] });
}

abbrev docs : Documents
docs = record {
  metadata = λ body. some meta;
  token = λ body. some (some "t");
  jwks = λ body. some (key ∷ []);
}

abbrev client : OidcClient
client = record {
  meta = record meta { issuer = "https://idp/" };
  client_id = "c";
  client_secret = "s";
  redirect_uri = "https://app/cb";
  scope = "openid";
  algorithms = es256 ∷ [];
}

-- A crate that decodes whatever issuer is expected.
abbrev plain_crates : Crates
plain_crates = record crates { decode = λ now t k alg issuer id. some claims }

abbrev identity : OidcIdentity
identity = record {
  issuer = "https://idp/";
  subject = "u";
  email = none;
  email_verified = false;
  name = none;
}

login_test :
    exchange_code plain_crates docs client
      (λ form. web)
      web
      false
      7
      8
      (pos 5)
      "code"
      "verifier"
      "n"
      none
    ≡ (ok (identity, claims), some (record { set = key ∷ []; fetched_at = 8 }))
unfolding exchange_code read_token login_with keys_for cached_keys serves_kid find_kid fetch_keys
    read_answer finish_login expectations validate_id_token check_algorithm alg_eq any select_key
    candidate check_key_algorithm validate_under check_claims identity_from_claims get trim_end_by
    safe_get safe_get_inner get_loop hop_once safe_post_form safe_post_form_inner within pin
    resolve_and_validate validate first_blocked next_of is_redirection read_capped read_chunks
    is_public_unicast is_public_unicast_v4 is_special_v4
login_test = refl

exchange_code_sound_example :
    LoggedIn plain_crates docs client
      (fetch_keys plain_crates docs client web false)
      7
      (pos 5)
      "n"
      none
      identity
      claims
exchange_code_sound_example =
    exchange_code_sound plain_crates docs client (λ form. web) web false 7 8 (pos 5) "code"
      "verifier" "n" none identity claims (ap (λ r. r.0) login_test)

checks :
    (now : ℤ) (t : String) (k : ℕ) (alg : Algorithm) (issuer id : String) (found : Fields)
    → crates.decode now t k alg issuer id ≡ some found
    → as_str (get "iss" found) ≡ some issuer
unfolding get
checks now t k alg issuer id found h = ground (arith, h, eq_iff issuer "https://idp/")

abbrev profiles : Profiles
profiles = record {
  google_info =
      λ body. some (record { sub = "1"; email = some "a@b"; email_verified = true; name = none });
  git_hub_info = λ body. none;
  discord_info = λ body. none;
}

abbrev google_client : OAuthClient
google_client = record {
  provider = google;
  client_id = "c";
  client_secret = "s";
  redirect_uri = "r";
  scope = "openid";
}

abbrev user : OAuthUser
user = record {
  provider = google;
  provider_user_id = "1";
  email = some "a@b";
  email_verified = true;
  name = none;
}

user_test : fetch_user profiles (λ url token. some "{}") google_client "tok" ≡ ok user
unfolding fetch_user parse_user
user_test = refl
