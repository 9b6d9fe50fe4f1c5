-- ===== src/Oauth/Oidc/IdToken.antt =====
-- crates/oauth/src/oidc.rs: what an id_token that is accepted has passed.
use mathlib.Core.Path.{subst}
use kit.Prelude.{
  Bool, true, false, Option, none, some, String, List, [], ◌∷◌, any, leb, filter, filter_map, ◌≡◌,
  inl, inr, refl, sym, ap, ◌∙◌, arith, Bool-cases, str_eq, eq_iff, Result, ok, err, ◌>>=◌, ok_or,
  >>=-eq-ok, ok_or-eq-ok,
}
use kit.Prelude.Int.{ℤ}
use kit.Prelude.Json.{Fields, get, as_str, as_array}
use kit.Prelude.Rows.{Among}
use kit.Prelude.Tokens.{
  Algorithm, eddsa, rs256, rs384, rs512, es256, es384, ps256, ps384, ps512, hs256, hs384, hs512,
}
use kit.Oauth.Oidc.{
  OidcError, IssuerMetadata, IdTokenExpectations, Header, Jwk, Crates, id_token,
  unexpected_algorithm, no_usable_algorithm, is_asymmetric, alg_eq, code_of, find_kid, only_key,
  candidate, check_key_algorithm, select_key, is_str, is_nonempty, is_several, check_claims,
  signing_algorithms, check_algorithm, validate_under, validate_id_token,
}

is_str-eq : (o : Option String) (t : String) → is_str o t ≡ true → o ≡ some t
is_str-eq none t h = absurd (cc)
is_str-eq (some s) t h = ap some ((eq_iff s t).0 h)

ok_inj : {E A : Type 0} {a b : A} → ◌≡◌ {A = Result E A} (ok a) (ok b) → a ≡ b
ok_inj h = cc

-- What the code checks itself of the claims.
pub record Checked (claims : Fields) (x : IdTokenExpectations) : Type 0 where
  pub nonce : as_str (get "nonce" claims) ≡ some x.nonce
  pub subject : is_nonempty (as_str (get "sub" claims)) ≡ true
  pub authorized :
      is_several (as_array (get "aud" claims)) ≡ true → as_str (get "azp" claims) ≡ some x.client_id

check_claims-Checked :
    (claims : Fields) (x : IdTokenExpectations) → check_claims claims x ≡ ok tt → Checked claims x
unfolding check_claims
check_claims-Checked claims x h = elim (Bool-cases (is_str (as_str (get "nonce" claims)) x.nonce)) [
  | inr f ↦ absurd (ground (arith, h, f))
  | inl n ↦ elim (Bool-cases (is_nonempty (as_str (get "sub" claims)))) [
    | inr f ↦ absurd (ground (arith, h, n, f))
    | inl s ↦ record {
      nonce = is_str-eq (as_str (get "nonce" claims)) x.nonce n;
      subject = s;
      authorized = λ several. is_str-eq (as_str (get "azp" claims)) x.client_id (azp n s several);
    }
  ]
]
  where
    azp :
        is_str (as_str (get "nonce" claims)) x.nonce ≡ true
        → is_nonempty (as_str (get "sub" claims)) ≡ true
        → is_several (as_array (get "aud" claims)) ≡ true
        → is_str (as_str (get "azp" claims)) x.client_id ≡ true
    azp n s several = elim (Bool-cases (is_str (as_str (get "azp" claims)) x.client_id)) [
      | inl t ↦ t
      | inr f ↦ absurd (ground (arith, h, n, s, several, f))
    ]

find_kid-Among :
    (kid : String) (jwks : List Jwk) (jwk : Jwk) → find_kid kid jwks ≡ some jwk → Among jwk jwks
unfolding find_kid
find_kid-Among kid [] jwk h = absurd (cc)
find_kid-Among kid (first ∷ jwks) jwk h =
    elim (Bool-cases (elim first.kid as (λ o. Bool) [ none ↦ false | some k ↦ str_eq k kid ])) [
      | inl t ↦ inl (ground (arith, h, t))
      | inr f ↦ inr (find_kid-Among kid jwks jwk (ground (arith, h, f)))
    ]

candidate-Among :
    (jwks : List Jwk) (kid : Option String) (jwk : Jwk)
    → candidate jwks kid ≡ ok jwk
    → Among jwk jwks
unfolding candidate only_key
candidate-Among jwks (some kid) jwk h =
    find_kid-Among kid jwks jwk (ok_or-eq-ok (find_kid kid jwks) _ h)
candidate-Among [] none jwk h = absurd (cc)
candidate-Among (only ∷ []) none jwk h = inl (cc)
candidate-Among (first ∷ second ∷ more) none jwk h = absurd (cc)

select_key-Among :
    (jwks : List Jwk) (header : Header) (jwk : Jwk)
    → select_key jwks header ≡ ok jwk
    → Among jwk jwks × (check_key_algorithm jwk.key_algorithm header.alg ≡ ok tt)
unfolding select_key
select_key-Among jwks header jwk h =
    let (found, chosen, rest) = >>=-eq-ok (candidate jwks header.kid) _ h in
    matched found chosen
      (>>=-eq-ok (check_key_algorithm found.key_algorithm header.alg) (λ u. ok found) rest)
  where
    matched :
        (found : Jwk)
        → candidate jwks header.kid ≡ ok found
        → (u : Unit {0}) × (check_key_algorithm found.key_algorithm header.alg ≡ ok u)
          × ◌≡◌ {A = Result OidcError Jwk} (ok found) (ok jwk)
        → Among jwk jwks × (check_key_algorithm jwk.key_algorithm header.alg ≡ ok tt)
    matched found chosen (u, agrees, last) =
        let same : found ≡ jwk = ok_inj last in
        (
          candidate-Among jwks header.kid jwk (chosen ∙ last),
          ap (λ (j : Jwk). check_key_algorithm j.key_algorithm header.alg) (sym same) ∙ agrees,
        )

asymmetric_code : (a : Algorithm) → is_asymmetric a ≡ leb 3 (code_of a)
unfolding is_asymmetric code_of
asymmetric_code hs256 = refl
asymmetric_code hs384 = refl
asymmetric_code hs512 = refl
asymmetric_code rs256 = refl
asymmetric_code rs384 = refl
asymmetric_code rs512 = refl
asymmetric_code es256 = refl
asymmetric_code es384 = refl
asymmetric_code ps256 = refl
asymmetric_code ps384 = refl
asymmetric_code ps512 = refl
asymmetric_code eddsa = refl

module _ (c : Crates) where
  check_algorithm_ok :
      (alg : Algorithm) (algorithms : List Algorithm)
      → check_algorithm c alg algorithms ≡ ok tt
      → any (alg_eq alg) algorithms ≡ true
  unfolding check_algorithm
  check_algorithm_ok alg algorithms h = elim (Bool-cases (any (alg_eq alg) algorithms)) [
    | inl t ↦ t
    | inr f ↦ absurd (ground (arith, h, f))
  ]

  validate_under_ok :
      (now : ℤ) (token : String) (x : IdTokenExpectations) (header : Header) (jwk : Jwk)
      (claims : Fields)
      → validate_under c now token x header jwk ≡ ok claims
      → (key : c.Key) × (c.from_jwk jwk ≡ some key)
        × (c.decode now token key header.alg x.issuer x.client_id ≡ some claims)
        × Checked claims x
  unfolding validate_under
  validate_under_ok now token x header jwk claims h =
      let (key, loaded, rest) = >>=-eq-ok (ok_or (c.from_jwk jwk) id_token) _ h in
      let (found, opened, rest') =
        >>=-eq-ok (ok_or (c.decode now token key header.alg x.issuer x.client_id) id_token) _
          rest in
      finish key found loaded opened (>>=-eq-ok (check_claims found x) (λ u. ok found) rest')
    where
      finish :
          (key : c.Key) (found : Fields)
          → ok_or (c.from_jwk jwk) id_token ≡ ok key
          → ok_or (c.decode now token key header.alg x.issuer x.client_id) id_token ≡ ok found
          → (u : Unit {0}) × (check_claims found x ≡ ok u)
            × ◌≡◌ {A = Result OidcError Fields} (ok found) (ok claims)
          → (key : c.Key) × (c.from_jwk jwk ≡ some key)
            × (c.decode now token key header.alg x.issuer x.client_id ≡ some claims)
            × Checked claims x
      finish key found loaded opened (u, checked, last) =
          let same : found ≡ claims = ok_inj last in
          (
            key,
            ok_or-eq-ok (c.from_jwk jwk) id_token loaded,
            ok_or-eq-ok (c.decode now token key header.alg x.issuer x.client_id) id_token opened
                ∙ ap some same,
            check_claims-Checked claims x (ap (λ f. check_claims f x) (sym same) ∙ checked),
          )

  -- What an accepted id_token shows: its header, the key and the claims.
  abbrev pub Accepted : ℤ → String → List Jwk → IdTokenExpectations → Fields → Type 0
  Accepted now token jwks x claims =
      (header : Header) × (jwk : Jwk) × (c.decode_header token ≡ some header)
      × (any (alg_eq header.alg) x.algorithms ≡ true)
      × Among jwk jwks
      × (check_key_algorithm jwk.key_algorithm header.alg ≡ ok tt)
      × ((key : c.Key) × (c.from_jwk jwk ≡ some key)
          × (c.decode now token key header.alg x.issuer x.client_id ≡ some claims)
          × Checked claims x)

  -- An id_token that is accepted names an algorithm that the client accepts, is decoded under a key of
  -- the issuer's set that does not declare another algorithm, has the nonce of the login attempt and a
  -- subject that is a non-empty text, and names this client as the authorized party if it has several
  -- audiences.
  pub validate_id_token_sound :
      (now : ℤ) (token : String) (jwks : List Jwk) (x : IdTokenExpectations) (claims : Fields)
      → validate_id_token c now token jwks x ≡ ok claims
      → Accepted now token jwks x claims
  unfolding validate_id_token
  validate_id_token_sound now token jwks x claims h =
      let (header, decoded, h1) = >>=-eq-ok (ok_or (c.decode_header token) id_token) _ h in
      with_header header (ok_or-eq-ok (c.decode_header token) id_token decoded) (
        >>=-eq-ok (check_algorithm c header.alg x.algorithms)
          (λ u. select_key jwks header >>= λ jwk. validate_under c now token x header jwk) h1)
    where
      with_header :
          (header : Header)
          → c.decode_header token ≡ some header
          → (u : Unit {0}) × (check_algorithm c header.alg x.algorithms ≡ ok u)
            × ((select_key jwks header >>= λ jwk. validate_under c now token x header jwk)
                ≡ ok claims)
          → Accepted now token jwks x claims
      with_header header decoded (u, accepted, h2) =
          let (jwk, selected, h3) =
            >>=-eq-ok (select_key jwks header) (λ jwk. validate_under c now token x header jwk)
              h2 in
          let (among, agrees) = select_key-Among jwks header jwk selected in
          (
            header,
            jwk,
            decoded,
            check_algorithm_ok header.alg x.algorithms accepted,
            among,
            agrees,
            validate_under_ok now token x header jwk claims h3,
          )

  no_shared :
      (alg : Algorithm) (algorithms : List Algorithm)
      → is_asymmetric alg ≡ false
      → any (alg_eq alg) (filter is_asymmetric algorithms) ≡ false
  unfolding any filter alg_eq
  no_shared alg [] h = refl
  no_shared alg (a ∷ algorithms) h =
      ground (arith, no_shared alg algorithms h, asymmetric_code a, asymmetric_code alg)

  advertised_shared :
      (alg : Algorithm) (meta : IssuerMetadata) (algorithms : List Algorithm)
      → signing_algorithms c meta ≡ ok algorithms
      → is_asymmetric alg ≡ false
      → any (alg_eq alg) algorithms ≡ false
  unfolding signing_algorithms filter is_asymmetric
  advertised_shared alg meta algorithms h sym_alg =
      by_names meta.id_token_signing_alg_values_supported h
    where
      by_usable :
          (usable : List Algorithm)
          → any (alg_eq alg) usable ≡ false
          → elim usable as (λ u. Result OidcError (List Algorithm)) [
            | [] ↦ err no_usable_algorithm
            | a ∷ algs ↦ ok (a ∷ algs)
          ]
            ≡ ok algorithms
          → any (alg_eq alg) algorithms ≡ false
      by_usable [] none_shared k = absurd (cc)
      by_usable (a ∷ algs) none_shared k =
          subst (λ l. any (alg_eq alg) l ≡ false) (ok_inj k) none_shared

      by_names :
          (names : List String)
          → elim names as (λ n. Result OidcError (List Algorithm)) [
            | [] ↦ ok (rs256 ∷ [])
            | name ∷ names ↦
                elim (filter is_asymmetric (filter_map c.algorithm_from_str (name ∷ names))) [
                  | [] ↦ err no_usable_algorithm
                  | a ∷ algs ↦ ok (a ∷ algs)
                ]
          ]
            ≡ ok algorithms
          → any (alg_eq alg) algorithms ≡ false
      by_names [] k =
          subst (λ l. any (alg_eq alg) l ≡ false) (ok_inj k) (no_shared alg (rs256 ∷ []) sym_alg)
      by_names (name ∷ names) k =
          by_usable (filter is_asymmetric (filter_map c.algorithm_from_str (name ∷ names)))
            (no_shared alg (filter_map c.algorithm_from_str (name ∷ names)) sym_alg) k

  -- Whatever algorithms an issuer advertises, a client of it refuses every token whose header names a
  -- symmetric algorithm, before it looks for a key: a public key is never taken for a shared secret.
  pub symmetric_refused :
      (now : ℤ) (token : String) (jwks : List Jwk) (x : IdTokenExpectations) (header : Header)
      (meta : IssuerMetadata)
      → signing_algorithms c meta ≡ ok x.algorithms
      → c.decode_header token ≡ some header
      → is_asymmetric header.alg ≡ false
      → validate_id_token c now token jwks x ≡ err unexpected_algorithm
  unfolding validate_id_token check_algorithm
  symmetric_refused now token jwks x header meta made decoded symmetric =
      rw (decoded, validate_id_token)
        (rw (advertised_shared header.alg meta x.algorithms made symmetric) refl)
