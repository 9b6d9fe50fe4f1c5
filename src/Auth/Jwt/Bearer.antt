-- ===== src/Auth/Jwt/Bearer.antt =====
-- crates/auth/src/jwt.rs and middleware.rs: from a token that is issued to the user of a request.
use kit.Prelude.{
  ℕ, true, false, Option, none, some, String, List, [], ◌∷◌, ◌++◌, ◌≡◌, inl, inr, refl, sym, ap,
  ◌∙◌, arith, ok, err, Result-cases, Option-cases,
}
use kit.Prelude.Int.{ℤ, ltb_ℤ, add_i64}
use kit.Prelude.Text.{starts_with-append, drop-append}
use kit.Prelude.Tokens.{
  Jwt, Passes, Validates, IsPair, IsExact, eddsa, exp_claim, iss_claim, aud_claim,
}
use kit.Auth.Jwt.{
  Claims, unauthorized, registered, JwtConfig, validation, claims_at, issue_token_for, issue_token,
  verify_token, bearer, bearer_token, extract,
}
use kit.Auth.Jwt.Keys.{Foreign, verify_by_signer, verify_decoded, verify-claims}

module _ (j : Jwt Claims) (config : JwtConfig j) where
  issue_shape :
      (now : ℤ) (user_id : ℕ) (org : Option ℕ) (token : List ℕ)
      → issue_token j config now user_id org ≡ ok token
      → (signing : j.EncodingKey) × (config.encoding_key ≡ some signing)
        × (j.encode eddsa (claims_at j config now user_id org config.audience) signing ≡ some token)
  unfolding issue_token issue_token_for
  issue_shape now user_id org token h = elim (Option-cases config.encoding_key) [
    | inl missing ↦ absurd (ground (arith, h, missing))
    | inr (k, e) ↦
        elim (Option-cases
          (j.encode eddsa (claims_at j config now user_id org config.audience) k)) [
            | inl failed ↦ absurd (ground (arith, h, e, failed))
            | inr (t, s) ↦ (k, e, ground (arith, h, e, s))
          ]
  ]

  bearer_read : (token : List ℕ) → bearer_token (some (bearer ++ token)) ≡ some token
  unfolding bearer_token
  bearer_read token = ground (arith, starts_with-append bearer token, drop-append bearer token)

  issued-Passes :
      (now later : ℤ) (user_id : ℕ) (org : Option ℕ)
      → ltb_ℤ (add_i64 now config.access_ttl_seconds) later ≡ false
      → Passes
          (validation j config)
          later
          (registered (claims_at j config now user_id org config.audience))
  unfolding validation claims_at
  issued-Passes now later user_id org live = by_audience config.audience
    where
      by_audience :
          (audience : Option String)
          → Passes
              (record {
                algorithm = eddsa;
                iss = some config.issuer;
                aud = audience;
                required_spec_claims = elim audience [
                  | some audience ↦ exp_claim ∷ iss_claim ∷ aud_claim ∷ []
                  | none ↦ exp_claim ∷ iss_claim ∷ []
                ];
                validate_exp = true;
                validate_nbf = true;
              })
              later
              (record {
                iss = some config.issuer;
                aud = audience;
                exp = some (add_i64 now config.access_ttl_seconds);
                nbf = none;
              })
      by_audience none = record {
        present = (λ h. cc, (λ h. cc, tt));
        issuer = refl;
        audience = refl;
        unexpired = λ h. live;
        mature = λ h. tt;
      }
      by_audience (some a) = record {
        present = (λ h. cc, (λ h. cc, (λ h. cc, tt)));
        issuer = refl;
        audience = refl;
        unexpired = λ h. live;
        mature = λ h. tt;
      }

  -- The token that a config issues names its user: with it as the bearer token, a request has that
  -- user and that organisation until the end of the token's lifetime, also where other keys are kept
  -- for a rotation, none of which signed it. The crate is assumed to decode by the key of a pair.
  pub extract-issue_token :
      (now later : ℤ) (user_id : ℕ) (org : Option ℕ) (token : List ℕ)
      (before after : List j.DecodingKey) (key : j.DecodingKey)
      → ((signing : j.EncodingKey)
          → config.encoding_key ≡ some signing
          → IsPair registered j signing key)
      → config.current ∷ config.previous ≡ before ++ key ∷ after
      → Foreign j later token (validation j config) before
      → Foreign j later token (validation j config) after
      → issue_token j config now user_id org ≡ ok token
      → ltb_ℤ (add_i64 now config.access_ttl_seconds) later ≡ false
      → extract j config later (some (bearer ++ token))
        ≡ ok (record { user_id = user_id; active_org = org })
  unfolding extract validation claims_at
  extract-issue_token now later user_id org token before after key pair keys fb fa issued live =
      let (signing, has_key, encoded) = issue_shape now user_id org token issued in
      let claims = claims_at j config now user_id org config.audience in
      let decoded : j.decode later token key (validation j config) ≡ ok claims =
        pair signing has_key later token (validation j config) claims encoded
          (issued-Passes now later user_id org live) in
      let verified : verify_token j config later token ≡ ok claims =
        verify_by_signer j config later token before after key keys fb fa ∙ rw decoded refl in
      ground (arith, bearer_read token, verified)

  -- A token is refused after its lifetime, whoever presents it: the crate is assumed to decode no
  -- token that fails its validation, and no other claims than a token was made of.
  pub extract_expired :
      (now later : ℤ) (user_id : ℕ) (org : Option ℕ) (token : List ℕ)
      → Validates registered j
      → IsExact j
      → issue_token j config now user_id org ≡ ok token
      → ltb_ℤ (add_i64 now config.access_ttl_seconds) later ≡ true
      → extract j config later (some (bearer ++ token)) ≡ err unauthorized
  unfolding extract claims_at
  extract_expired now later user_id org token validates exact issued over =
      let (signing, has_key, encoded) = issue_shape now user_id org token issued in
      let claims = claims_at j config now user_id org config.audience in
      elim (Result-cases (verify_token j config later token)) [
        | inl (e, refused) ↦ ground (arith, bearer_read token, refused)
        | inr (c, verified) ↦
            let (key, decoded) = verify_decoded j config later token c verified in
            let same : c ≡ claims =
              exact eddsa signing later token key (validation j config) claims c encoded decoded in
            let live = (verify-claims j config later token c validates verified).2 in
            absurd (late c same live over)
      ]
    where
      late :
          (c : Claims)
          → c ≡ claims_at j config now user_id org config.audience
          → ltb_ℤ c.exp later ≡ false
          → ltb_ℤ (add_i64 now config.access_ttl_seconds) later ≡ true
          → ⊥
      late c same live over =
          let clash : true ≡ false =
            sym over ∙ ap (λ (d : Claims). ltb_ℤ d.exp later) (sym same) ∙ live in
          absurd (cc)
