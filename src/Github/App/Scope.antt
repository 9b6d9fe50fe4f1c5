-- ===== src/Github/App/Scope.antt =====
-- crates/github/src/app.rs: a token that is handed out was granted for its installation and repositories.
use kit.Prelude.{
  ℕ, ◌+◌, ◌<◌, ◌&&◌, Option, none, some, String, List, [], ◌∷◌, ◌≡◌, ◌⊎◌, inl, inr, refl, ap, ◌∙◌,
  arith, Bool-cases, Option-cases, Result-cases, Result, ok, err,
}
use kit.Prelude.Int.{ℤ, eq_ℤ, eq_ℤ→eq}
use kit.Prelude.Text.{bytes_eq, bytes_eq→eq}
use kit.Github.{GithubError, http}
use mathlib.Core.Path.{subst}
use kit.Github.App.{
  Crates, TokenResponse, Entry, Cache, join, get, is_fresh, refresh_margin_secs, GithubAppAuth,
  expiry_of, app_jwt, request_of, cached, entry_of, mint, installation_token,
}
use kit.Github.App.Names.{AreNames, join_injective}

module _ (c : Crates) (a : GithubAppAuth c) where
  -- In some round, GitHub granted the token for the installation and the repositories.
  pub record IsGranted (installation_id : ℤ) (repos : List (List ℕ)) (token : String) (expiry : ℕ)
      : Type 0 where
    pub round : ℕ
    pub now : ℕ
    pub jwt : String
    pub response : TokenResponse
    pub signed : app_jwt c a now ≡ ok jwt
    pub sent : c.send round (request_of c a installation_id repos jwt) ≡ some response
    pub of_response : response.token ≡ token
    pub until : expiry_of c now response ≡ expiry

  -- The caches that calls lead to, whatever the clock and the answers.
  pub data Reach : Cache → Type 0 where
    start : Reach []
    call :
        {cache : Cache} (round : ℕ) (now : Option ℕ) (installation_id : ℤ) (repos : List (List ℕ))
        → AreNames repos
        → Reach cache
        → Reach ((installation_token c a round now installation_id repos cache).1)

  OfEntry : Entry → Type 0
  OfEntry e =
      (repos : List (List ℕ)) × AreNames repos
      × (join repos ≡ e.scope)
      × IsGranted e.installation_id repos e.token e.expiry

  AreGranted : Cache → Type 0
  AreGranted [] = Unit
  AreGranted (e ∷ cache) = OfEntry e × AreGranted cache

  get-AreGranted :
      (installation_id : ℤ) (scope : List ℕ) (cache : Cache) (e : Entry)
      → AreGranted cache
      → get installation_id scope cache ≡ some e
      → OfEntry e × (e.installation_id ≡ installation_id) × (e.scope ≡ scope)
  unfolding get AreGranted
  get-AreGranted installation_id scope [] e all h = absurd (cc)
  get-AreGranted installation_id scope (d ∷ cache) e (first, rest) h =
      elim (Bool-cases (eq_ℤ d.installation_id installation_id && bytes_eq d.scope scope)) [
        | inr differs ↦
            get-AreGranted installation_id scope cache e rest (ground (arith, h, differs))
        | inl same ↦
            let found : d ≡ e = ground (arith, h, same) in
            subst (λ x. OfEntry x × (x.installation_id ≡ installation_id) × (x.scope ≡ scope)) found
              (
                first,
                eq_ℤ→eq d.installation_id installation_id (ground (arith, same)),
                bytes_eq→eq d.scope scope (ground (arith, same)),
              )
      ]

  -- A call keeps the cache, or puts the entry of a grant in front.
  mint-AreGranted :
      (round now : ℕ) (installation_id : ℤ) (repos : List (List ℕ)) (cache : Cache)
      → AreNames repos
      → AreGranted cache
      → AreGranted ((mint c a round now installation_id repos cache).1)
  unfolding mint AreGranted OfEntry entry_of
  mint-AreGranted round now installation_id repos cache names all = by_jwt (app_jwt c a now) refl
    where
      by_answer :
          (jwt : String)
          → app_jwt c a now ≡ ok jwt
          → (o : Option TokenResponse) → c.send round (request_of c a installation_id repos jwt) ≡ o
          → AreGranted (
              (elim o as (λ x. Result GithubError String × Cache) [
                | none ↦ (err (http "requesting an installation token"), cache)
                | some r ↦ (ok r.token, entry_of c a now installation_id repos r ∷ cache)
              ]).1)
      by_answer jwt signed none sent = all
      by_answer jwt signed (some r) sent = (
        (
          repos,
          names,
          refl,
          record {
            round = round;
            now = now;
            jwt = jwt;
            response = r;
            signed = signed;
            sent = sent;
            of_response = refl;
            until = refl;
          },
        ),
        all,
      )

      by_jwt :
          (j : Result GithubError String)
          → app_jwt c a now ≡ j
          → AreGranted (
              (elim j as (λ x. Result GithubError String × Cache) [
                | err e ↦ (err e, cache)
                | ok jwt ↦ elim (c.send round (request_of c a installation_id repos jwt)) [
                  | none ↦ (err (http "requesting an installation token"), cache)
                  | some r ↦ (ok r.token, entry_of c a now installation_id repos r ∷ cache)
                ]
              ]).1)
      by_jwt (err e) signed = all
      by_jwt (ok jwt) signed =
          by_answer jwt signed (c.send round (request_of c a installation_id repos jwt)) refl

  call-AreGranted :
      (round : ℕ) (now : Option ℕ) (installation_id : ℤ) (repos : List (List ℕ)) (cache : Cache)
      → AreNames repos
      → AreGranted cache
      → AreGranted ((installation_token c a round now installation_id repos cache).1)
  unfolding installation_token
  call-AreGranted round none installation_id repos cache names all = all
  call-AreGranted round (some now) installation_id repos cache names all =
      elim (cached c a now installation_id repos cache)
        as (λ o. AreGranted (
          (elim o as (λ x. Result GithubError String × Cache) [
            | some token ↦ (ok token, cache)
            | none ↦ mint c a round now installation_id repos cache
          ]).1)) [
            | some token ↦ all
            | none ↦ mint-AreGranted round now installation_id repos cache names all
          ]

  Reach-AreGranted : (cache : Cache) → Reach cache → AreGranted cache
  unfolding AreGranted
  Reach-AreGranted _ start = tt
  Reach-AreGranted _ (call {cache} round now installation_id repos names reach) =
      call-AreGranted round now installation_id repos cache names (Reach-AreGranted cache reach)

  mint-IsGranted :
      (round now : ℕ) (installation_id : ℤ) (repos : List (List ℕ)) (cache : Cache) (token : String)
      → (mint c a round now installation_id repos cache).0 ≡ ok token
      → (expiry : ℕ) × (g : IsGranted installation_id repos token expiry) × (g.round ≡ round)
  unfolding mint
  mint-IsGranted round now installation_id repos cache token h =
      elim (Result-cases (app_jwt c a now)) [
        | inl (e, failed) ↦ absurd (ground (arith, h, failed))
        | inr (jwt, signed) ↦
            elim (Option-cases (c.send round (request_of c a installation_id repos jwt))) [
              | inl lost ↦ absurd (ground (arith, h, signed, lost))
              | inr (r, sent) ↦ (
                expiry_of c now r,
                record {
                  round = round;
                  now = now;
                  jwt = jwt;
                  response = r;
                  signed = signed;
                  sent = sent;
                  of_response = ground (arith, h, signed, sent);
                  until = refl;
                },
                refl,
              )
            ]
      ]

  cached-IsGranted :
      (now : ℕ) (installation_id : ℤ) (repos : List (List ℕ)) (cache : Cache) (token : String)
      → Reach cache
      → AreNames repos
      → cached c a now installation_id repos cache ≡ some token
      → (expiry : ℕ) × IsGranted installation_id repos token expiry
        × (now + refresh_margin_secs < expiry)
  unfolding cached is_fresh OfEntry
  cached-IsGranted now installation_id repos cache token reach names h =
      elim (Option-cases (get installation_id (join repos) cache)) [
        | inl absent ↦ absurd (ground (arith, h, absent))
        | inr (e, found) ↦
            let ((repos', names', joined, granted), same_id, same_scope) =
              get-AreGranted installation_id (join repos) cache e (Reach-AreGranted cache reach)
                found in
            let same_repos : repos' ≡ repos =
              join_injective repos' repos names' names (joined ∙ same_scope) in
            let of_ids : IsGranted installation_id repos' e.token e.expiry =
              subst (λ i. IsGranted i repos' e.token e.expiry) same_id granted in
            let of_repos : IsGranted installation_id repos e.token e.expiry =
              subst (λ rs. IsGranted installation_id rs e.token e.expiry) same_repos of_ids in
            let same_token : e.token ≡ token = ground (arith, h, found) in
            (
              e.expiry,
              subst (λ t. IsGranted installation_id repos t e.expiry) same_token of_repos,
              ground (arith, h, found),
            )
      ]

  -- Whatever calls there were before, with names of repositories that are not empty and have no comma: a
  -- token that is handed out was granted by GitHub for a request signed by the app, for exactly this
  -- installation and exactly these repositories, and it either comes from the answer to this very call
  -- or has more than a minute left by the clock.
  pub installation_token-IsGranted :
      (round now : ℕ) (installation_id : ℤ) (repos : List (List ℕ)) (cache : Cache) (token : String)
      → Reach cache
      → AreNames repos
      → (installation_token c a round (some now) installation_id repos cache).0 ≡ ok token
      → (expiry : ℕ) × (g : IsGranted installation_id repos token expiry) × ((now
              + refresh_margin_secs
            < expiry)
          ⊎ (g.round ≡ round))
  unfolding installation_token
  installation_token-IsGranted round now installation_id repos cache token reach names h =
      elim (Option-cases (cached c a now installation_id repos cache)) [
        | inl absent ↦
            let (expiry, g, here) =
              mint-IsGranted round now installation_id repos cache token
                (ground (arith, h, absent)) in
            (expiry, g, inr here)
        | inr (t, found) ↦
            let same : t ≡ token = ground (arith, h, found) in
            let (expiry, g, left) =
              cached-IsGranted now installation_id repos cache token reach names
                (found ∙ ap some same) in
            (expiry, g, inl left)
      ]
