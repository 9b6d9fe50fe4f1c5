-- ===== src/Auth/Jwt/Keys.antt =====
-- crates/auth/src/jwt.rs: which of several keys a token is verified by.
use kit.Prelude.{
  ℕ, false, Option, none, some, String, List, [], ◌∷◌, ◌++◌, ◌≡◌, ◌⊎◌, inl, inr, ◌≢◌, refl, sym, ap,
  ◌∙◌, arith, Bool-cases, Result, ok, err, Result-cases, Option-cases,
}
use kit.Prelude.Int.{ℤ, ltb_ℤ}
use kit.Prelude.Rows.{AllRows}
use kit.Prelude.Tokens.{
  Jwt, Validation, IsPresent, ErrorKind, Validates, Agrees, AgreesAud, NotBefore, invalid_signature,
  expired_signature, immature_signature, invalid_issuer, invalid_audience, missing_required_claim,
  other, exp_claim, iss_claim, aud_claim,
}
use kit.Auth.Jwt.{
  Claims, registered, is_claim_failure, map_error, JwtConfig, keep_error, try_keys, validation,
  outcome, verify_token, with_previous, with_previous_public_pem,
}

not_claim_failure : (e : ErrorKind) → is_claim_failure e ≡ false → e ≡ invalid_signature
unfolding is_claim_failure
not_claim_failure invalid_signature h = refl
not_claim_failure expired_signature h = cc
not_claim_failure immature_signature h = cc
not_claim_failure invalid_issuer h = cc
not_claim_failure invalid_audience h = cc
not_claim_failure (missing_required_claim c) h = cc
not_claim_failure other h = cc

-- No claim has been refused so far.
abbrev IsWeak : Option ErrorKind → Type 0
IsWeak best = (best ≡ none) ⊎ (best ≡ some invalid_signature)

module _ (j : Jwt Claims) where
  -- None of the keys signed the token.
  abbrev pub Foreign : ℤ → List ℕ → Validation → List j.DecodingKey → Type 0
  Foreign now token v = AllRows (λ key. j.decode now token key v ≡ err invalid_signature)

  module _ (now : ℤ) (token : List ℕ) (v : Validation) where
    keep_weak :
        (best : Option ErrorKind)
        → IsWeak best
        → keep_error j best invalid_signature ≡ invalid_signature
    unfolding keep_error is_claim_failure
    keep_weak best (inl e) = rw e refl
    keep_weak best (inr e) = rw e refl

    keep_strong : (best : Option ErrorKind) (e : ErrorKind) → IsWeak best → keep_error j best e ≡ e
    unfolding keep_error
    keep_strong best e (inl w) = rw w refl
    keep_strong best e (inr w) = elim (Bool-cases (is_claim_failure e)) [
      | inl t ↦ rw w (rw t refl)
      | inr f ↦ rw w (rw f (sym (not_claim_failure e f)))
    ]

    Foreign-after :
        (best : ErrorKind) (keys : List j.DecodingKey)
        → Foreign now token v keys
        → try_keys j now token v (some best) keys ≡ err (some best)
    unfolding try_keys keep_error is_claim_failure
    Foreign-after best [] h = refl
    Foreign-after best (key ∷ keys) h = rw (h.0, try_keys) (Foreign-after best keys h.1)

    Foreign-before :
        (best : Option ErrorKind) (before keys : List j.DecodingKey)
        → IsWeak best
        → Foreign now token v before
        → (best' : Option ErrorKind) × IsWeak best'
          × (try_keys j now token v best (before ++ keys) ≡ try_keys j now token v best' keys)
    unfolding try_keys
    Foreign-before best [] keys w h = (best, w, refl)
    Foreign-before best (key ∷ before) keys w h =
        let (best', w', same) =
          Foreign-before (some (keep_error j best invalid_signature)) before keys
            (inr (ap some (keep_weak best w))) h.1 in
        (best', w', rw h.0 same)

    at_signer :
        (best : Option ErrorKind) (key : j.DecodingKey) (after : List j.DecodingKey)
        → IsWeak best
        → Foreign now token v after
        → try_keys j now token v best (key ∷ after)
          ≡ elim (j.decode now token key v) [ ok c ↦ ok c | err e ↦ err (some e) ]
    unfolding try_keys
    at_signer best key after w h = elim (Result-cases (j.decode now token key v)) [
      | inr (c, e) ↦ rw (e, try_keys) refl
      | inl (kind, e) ↦
          rw (e, try_keys)
            (ap (λ k. try_keys j now token v (some k) after) (keep_strong best kind w)
              ∙ Foreign-after kind after h)
    ]

    append_ok :
        (best : Option ErrorKind) (keys more : List j.DecodingKey) (c : Claims)
        → try_keys j now token v best keys ≡ ok c
        → try_keys j now token v best (keys ++ more) ≡ ok c
    unfolding try_keys
    append_ok best [] more c h = absurd (cc)
    append_ok best (key ∷ keys) more c h = elim (Result-cases (j.decode now token key v)) [
      | inr (d, e) ↦ ground (arith, e, h)
      | inl (kind, e) ↦
          let rest = append_ok (some (keep_error j best kind)) keys more c (ground (arith, e, h)) in
          ground (arith, e, rest)
    ]

    passed_some :
        (best : Option ErrorKind) (keys : List j.DecodingKey) (c : Claims)
        → try_keys j now token v best keys ≡ ok c
        → (key : j.DecodingKey) × (j.decode now token key v ≡ ok c)
    unfolding try_keys
    passed_some best [] c h = absurd (cc)
    passed_some best (key ∷ keys) c h = elim (Result-cases (j.decode now token key v)) [
      | inr (d, e) ↦ (key, ground (arith, e, h))
      | inl (kind, e) ↦ passed_some (some (keep_error j best kind)) keys c (ground (arith, e, h))
    ]

  -- A token that one key of the config signed and no other is answered as that key alone answers,
  -- wherever the key stands and in both cases: with its claims, or with the reason for which a
  -- claim was refused, which no bad signature of another key hides.
  pub verify_by_signer :
      (config : JwtConfig j) (now : ℤ) (token : List ℕ) (before after : List j.DecodingKey)
      (key : j.DecodingKey)
      → config.current ∷ config.previous ≡ before ++ key ∷ after
      → Foreign now token (validation j config) before
      → Foreign now token (validation j config) after
      → verify_token j config now token ≡ elim (j.decode now token key (validation j config)) [
        | ok c ↦ ok c
        | err e ↦ err (map_error e)
      ]
  unfolding verify_token outcome
  verify_by_signer config now token before after key keys fb fa =
      let v = validation j config in
      let (best, weak, same) = Foreign-before now token v none before (key ∷ after) (inl refl) fb in
      let all : try_keys j now token v none (config.current ∷ config.previous)
          ≡ elim (j.decode now token key v) [ ok c ↦ ok c | err e ↦ err (some e) ] =
        ap (try_keys j now token v none) keys
        ∙ same
        ∙ at_signer now token v best key after weak fa in
      ap (outcome j) all ∙ mapped (j.decode now token key v)
    where
      mapped :
          (r : Result ErrorKind Claims)
          → outcome j (elim r [ ok c ↦ ok c | err e ↦ err (some e) ])
            ≡ elim r [ ok c ↦ ok c | err e ↦ err (map_error e) ]
      mapped (ok c) = refl
      mapped (err e) = refl

  passed : (r : Result (Option ErrorKind) Claims) (c : Claims) → outcome j r ≡ ok c → r ≡ ok c
  unfolding outcome
  passed (ok d) c h = cc
  passed (err none) c h = absurd (cc)
  passed (err (some e)) c h = absurd (cc)

  verify_passed :
      (config : JwtConfig j) (now : ℤ) (token : List ℕ) (c : Claims)
      → verify_token j config now token ≡ ok c
      → try_keys j now token (validation j config) none (config.current ∷ config.previous) ≡ ok c
  unfolding verify_token
  verify_passed config now token c h = passed _ c h

  kept_verified :
      (config : JwtConfig j) (now : ℤ) (token : List ℕ) (key : j.DecodingKey) (c : Claims)
      → verify_token j config now token ≡ ok c
      → verify_token j (with_previous j key config) now token ≡ ok c
  unfolding with_previous validation verify_token outcome
  kept_verified config now token key c h = ap (outcome j) (
      append_ok now token (validation j config) none (config.current ∷ config.previous) (key ∷ []) c
        (verify_passed config now token c h))

  audience_exact :
      (expected : Option String) (c : Claims)
      → AllRows (IsPresent (registered c)) (elim expected [
        | some audience ↦ exp_claim ∷ iss_claim ∷ aud_claim ∷ []
        | none ↦ exp_claim ∷ iss_claim ∷ []
      ])
      → AgreesAud expected c.aud
      → c.aud ≡ expected
  audience_exact none c h k = k
  audience_exact (some a) c h k = agreed c.aud h.1.1.0 k
    where
      agreed : (claim : Option String) → claim ≢ none → Agrees (some a) claim → claim ≡ some a
      agreed none absent same = absurd (absent refl)
      agreed (some b) absent same = ap some same

  -- During a rotation nothing that was accepted is refused: with one more previous key from a PEM, a
  -- token that is verified is verified to the same claims.
  pub with_previous_public_pem-verify_token :
      (config config' : JwtConfig j) (now : ℤ) (token : List ℕ)
      (public : List ℕ → Option j.DecodingKey) (public_pem : List ℕ) (c : Claims)
      → with_previous_public_pem j public public_pem config ≡ ok config'
      → verify_token j config now token ≡ ok c
      → verify_token j config' now token ≡ ok c
  unfolding with_previous_public_pem
  with_previous_public_pem-verify_token config config' now token public public_pem c made h =
      elim (Option-cases (public public_pem)) [
        | inl bad ↦ absurd (ground (arith, made, bad))
        | inr (key, read) ↦
            let same : with_previous j key config ≡ config' = ground (arith, made, read) in
            ap (λ d. verify_token j d now token) (sym same) ∙ kept_verified config now token key c h
      ]

  pub verify_decoded :
      (config : JwtConfig j) (now : ℤ) (token : List ℕ) (c : Claims)
      → verify_token j config now token ≡ ok c
      → (key : j.DecodingKey) × (j.decode now token key (validation j config) ≡ ok c)
  verify_decoded config now token c h =
      passed_some now token (validation j config) none (config.current ∷ config.previous) c
        (verify_passed config now token c h)

  -- The claims of a token that is verified: the configured issuer, exactly the configured audience,
  -- and none if none is configured, and a lifetime that holds the moment. The crate is assumed to
  -- decode no token that fails its validation.
  pub verify-claims :
      (config : JwtConfig j) (now : ℤ) (token : List ℕ) (c : Claims)
      → Validates registered j
      → verify_token j config now token ≡ ok c
      → (c.iss ≡ config.issuer)
        × (c.aud ≡ config.audience)
        × (ltb_ℤ c.exp now ≡ false)
        × NotBefore c.nbf now
  unfolding validation
  verify-claims config now token c validates h =
      let (key, decoded) = verify_decoded config now token c h in
      let p = validates now token key (validation j config) c decoded in
      (
        p.issuer,
        audience_exact config.audience c p.present p.audience,
        p.unexpired refl,
        p.mature refl,
      )
