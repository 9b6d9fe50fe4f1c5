-- ===== src/Oauth/Oidc/Client/Login.antt =====
-- crates/oauth/src/oidc.rs: what a login that succeeds has passed.
use kit.Prelude.{
  ℕ, Bool, Option, String, List, ◌≡◌, ◌⊎◌, inl, inr, ap, ◌∙◌, arith, Option-cases, Result, ok,
  Result-cases, >>=-eq-ok,
}
use kit.Prelude.Int.{ℤ}
use kit.Prelude.Json.{Fields}
use kit.Http.Fetch.{Network, safe_post_form}
use kit.Oauth.Oidc.{OidcError, OidcIdentity, Jwk, Crates, validate_id_token, identity_from_claims}
use kit.Oauth.Oidc.IdToken.{Accepted, validate_id_token_sound}
use kit.Oauth.Oidc.Client.{
  Documents, OidcClient, CachedJwks, keys_for, token_form, read_token, expectations, fetch_keys,
  finish_login, login_with, exchange_code, default_opts,
}
use kit.Oauth.Oidc.Client.Refresh.{IsYoung, keys_for_fresh}

module _ (c : Crates) (docs : Documents) (client : OidcClient) where
  -- The id_token was accepted under keys that were fetched just now or less than an hour ago.
  abbrev pub LoggedIn :
      Result OidcError (List Jwk)
      → ℕ
      → ℤ
      → String
      → Option CachedJwks
      → OidcIdentity
      → Fields
      → Type 0
  LoggedIn fetched now unix_now nonce cache identity claims =
      (token : String) × (jwks : List Jwk) × ((fetched ≡ ok jwks) ⊎ IsYoung now cache jwks)
      × Accepted c unix_now token jwks (expectations client nonce) claims
      × (identity ≡ identity_from_claims client.meta.issuer claims)

  finished :
      (unix_now : ℤ) (nonce token : String) (keys : Result OidcError (List Jwk))
      (identity : OidcIdentity) (claims : Fields)
      → finish_login c docs client unix_now nonce token keys ≡ ok (identity, claims)
      → (jwks : List Jwk) × (keys ≡ ok jwks)
        × Accepted c unix_now token jwks (expectations client nonce) claims
        × (identity ≡ identity_from_claims client.meta.issuer claims)
  unfolding finish_login
  finished unix_now nonce token keys identity claims h =
      let (jwks, has_keys, rest) = >>=-eq-ok keys _ h in
      let (found, valid, last) =
        >>=-eq-ok (validate_id_token c unix_now token jwks (expectations client nonce))
          (λ claims. ok (identity_from_claims client.meta.issuer claims, claims)) rest in
      let same : found ≡ claims = cc in
      (
        jwks,
        has_keys,
        validate_id_token_sound c unix_now token jwks (expectations client nonce) claims
            (valid ∙ ap ok same),
        cc,
      )

  logged_in :
      (now done : ℕ) (unix_now : ℤ) (nonce token : String) (fetched : Result OidcError (List Jwk))
      (cache : Option CachedJwks) (identity : OidcIdentity) (claims : Fields)
      → (login_with c docs client now done unix_now nonce token fetched cache).0
        ≡ ok (identity, claims)
      → LoggedIn fetched now unix_now nonce cache identity claims
  unfolding login_with
  logged_in now done unix_now nonce token fetched cache identity claims h =
      elim (Option-cases (c.decode_header token)) [
        | inl bad ↦ absurd (ground (arith, h, bad))
        | inr (header, good) ↦
            let (jwks, has_keys, accepted, named) =
              finished unix_now nonce token (keys_for now done header.kid fetched cache).0 identity
                claims (ground (arith, h, good)) in
            (
              token,
              jwks,
              keys_for_fresh now done header.kid fetched cache jwks has_keys,
              accepted,
              named,
            )
      ]

  -- A login that succeeds rests on an id_token that passed every check, with the nonce of this login
  -- attempt, under keys of the issuer that were fetched for this call or stored less than an hour
  -- before it; the identity is read off its claims. This holds whatever the token endpoint, the
  -- issuer's key document and the networks answer.
  pub exchange_code_sound :
      (post : List (String × String) → Network) (net : Network) (timed_out : Bool) (now done : ℕ)
      (unix_now : ℤ) (code pkce_verifier nonce : String) (cache : Option CachedJwks)
      (identity : OidcIdentity) (claims : Fields)
      → (exchange_code c docs client post net timed_out now done unix_now code pkce_verifier nonce
          cache).0
        ≡ ok (identity, claims)
      → LoggedIn (fetch_keys c docs client net timed_out) now unix_now nonce cache identity claims
  unfolding exchange_code
  exchange_code_sound post net timed_out now done unix_now code pkce_verifier nonce cache identity
        claims h =
      elim (Result-cases (
        read_token docs (
          safe_post_form (post (token_form client code pkce_verifier)) timed_out
            client.meta.token_endpoint default_opts))) [
              | inl (e, failed) ↦ absurd (ground (arith, h, failed))
              | inr (token, got) ↦
                  logged_in now done unix_now nonce token (fetch_keys c docs client net timed_out)
                    cache identity claims (ground (arith, h, got))
            ]
