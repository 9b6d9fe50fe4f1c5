-- ===== src/Oauth/Oidc/Client/Refresh.antt =====
-- crates/oauth/src/oidc.rs: how often the keys of an issuer are fetched, and how old they get.
use mathlib.Core.Path.{subst}
use kit.Prelude.{
  ℕ, ◌+◌, ◌-◌, ◌≤◌, ◌<◌, Option, none, some, String, List, [], ◌∷◌, ◌≡◌, ◌⊎◌, inl, inr, refl, sym,
  ap, ◌∙◌, ◌*◌, arith, ltb, ltb→lt, Bool-cases, Option-cases, if◌then◌else◌, Result, ok, err,
  Result-cases,
}
use kit.Oauth.Oidc.{OidcError, Jwk, unknown_key}
use kit.Oauth.Oidc.Client.{
  CachedJwks, jwks_min_refresh, jwks_max_age, serves_kid, cached_keys, keys_for,
}

-- A call: when it asks, when what it fetches is stored, for which key, and what a fetch would give.
pub record Call : Type 0 where
  pub now : ℕ
  pub done : ℕ
  pub kid : Option String
  pub fetched : Result OidcError (List Jwk)

-- The cached keys after a call, and how often they have been replaced by it.
abbrev pub after : Call → Option CachedJwks → Option CachedJwks
after call cache = (keys_for call.now call.done call.kid call.fetched cache).1

abbrev pub replaced : Call → Option CachedJwks → ℕ
replaced call cache = elim (cached_keys call.now call.kid cache) [
  | some set ↦ 0
  | none ↦ elim call.fetched [ err e ↦ 0 | ok set ↦ 1 ]
]

abbrev pub run : List Call → Option CachedJwks → Option CachedJwks
run [] cache = cache
run (call ∷ calls) cache = run calls (after call cache)

abbrev pub replacements : List Call → Option CachedJwks → ℕ
replacements [] cache = 0
replacements (call ∷ calls) cache = replaced call cache + replacements calls (after call cache)

-- No call stores before it asks.
abbrev pub Forward : List Call → Type 0
Forward [] = Unit
Forward (call ∷ calls) = (call.now ≤ call.done) × Forward calls

young_served :
    (now : ℕ) (kid : Option String) (cached : CachedJwks)
    → now - cached.fetched_at < jwks_min_refresh
    → cached_keys now kid (some cached) ≡ some cached.set
unfolding cached_keys
young_served now kid cached h = ground arith

-- The keys are kept, or replaced a refresh later at least.
abbrev Moves : Option CachedJwks → ℕ → CachedJwks → Type 0
Moves cache count cached =
    (later : CachedJwks) × (cache ≡ some later)
    × (cached.fetched_at + count * jwks_min_refresh ≤ later.fetched_at)

one_call :
    (call : Call) (cached : CachedJwks)
    → call.now ≤ call.done
    → Moves (after call (some cached)) (replaced call (some cached)) cached
unfolding keys_for
one_call call cached forward =
    elim (Bool-cases (ltb (call.now - cached.fetched_at) jwks_min_refresh)) [
      | inl young ↦
          let hit = young_served call.now call.kid cached (ltb→lt _ _ young) in
          (cached, ground (arith, hit), ground (arith, hit))
      | inr old ↦ elim (Option-cases (cached_keys call.now call.kid (some cached))) [
        | inr (set, hit) ↦ (cached, ground (arith, hit), ground (arith, hit))
        | inl miss ↦ elim (Result-cases call.fetched) [
          | inl (e, failed) ↦ (cached, ground (arith, miss, failed), ground (arith, miss, failed))
          | inr (set, got) ↦ (
            record { set = set; fetched_at = call.done },
            ground (arith, miss, got),
            ground (arith, miss, got, old),
          )
        ]
      ]
    ]

-- Over any sequence of calls for any key ids, with any answers of the issuer, the cached keys are
-- replaced at most once in 60 seconds: after so many replacements they were stored at least so many
-- minutes after the keys that were there first.
pub refresh_spacing :
    (calls : List Call) (cached : CachedJwks)
    → Forward calls
    → (last : CachedJwks) × (run calls (some cached) ≡ some last)
      × (cached.fetched_at + replacements calls (some cached) * jwks_min_refresh ≤ last.fetched_at)
refresh_spacing [] cached h = (cached, refl, omega arith)
refresh_spacing (call ∷ calls) cached h =
    let (later, moved, step) = one_call call cached h.0 in
    let (last, ends, rest) = refresh_spacing calls later h.1 in
    (
      last,
      ap (run calls) moved ∙ ends,
      subst
          (λ c.
            cached.fetched_at
              + (replaced call (some cached) + replacements calls c) * jwks_min_refresh
            ≤ last.fetched_at)
          (sym moved) (omega (arith, step, rest)),
    )

-- The cached keys are those given, and were stored less than an hour ago.
abbrev pub IsYoung : ℕ → Option CachedJwks → List Jwk → Type 0
IsYoung now cache set =
    (cached : CachedJwks) × (cache ≡ some cached)
    × (cached.set ≡ set)
    × (now - cached.fetched_at < jwks_max_age)

cached_keys-IsYoung :
    (now : ℕ) (kid : Option String) (cache : Option CachedJwks) (set : List Jwk)
    → cached_keys now kid cache ≡ some set
    → IsYoung now cache set
unfolding cached_keys
cached_keys-IsYoung now kid none set h = absurd (cc)
cached_keys-IsYoung now kid (some cached) set h =
    (cached, refl, ground (arith, h), ground (arith, h))

given :
    (kid : Option String) (found set : List Jwk)
    → elim kid as (λ k. Result OidcError (List Jwk)) [
      | none ↦ ok found
      | some k ↦ if serves_kid (some k) found then ok found else err (unknown_key k)
    ]
      ≡ ok set
    → ◌≡◌ {A = Result OidcError (List Jwk)} (ok found) (ok set)
given none found set h = h
given (some k) found set h = elim (Bool-cases (serves_kid (some k) found)) [
  | inl t ↦ ground (arith, h, t)
  | inr f ↦ absurd (ground (arith, h, f))
]

-- Keys that a call gives have just been fetched, or are cached and less than an hour old.
pub keys_for_fresh :
    (now done : ℕ) (kid : Option String) (fetched : Result OidcError (List Jwk))
    (cache : Option CachedJwks) (set : List Jwk)
    → (keys_for now done kid fetched cache).0 ≡ ok set
    → (fetched ≡ ok set) ⊎ IsYoung now cache set
unfolding keys_for
keys_for_fresh now done kid fetched cache set h = elim (Option-cases (cached_keys now kid cache)) [
  | inr (found, hit) ↦
      let same : found ≡ set = ground (arith, h, hit) in
      inr (cached_keys-IsYoung now kid cache set (hit ∙ ap some same))
  | inl miss ↦ elim (Result-cases fetched) [
    | inl (e, failed) ↦ absurd (ground (arith, h, miss, failed))
    | inr (found, got) ↦ inl (got ∙ given kid found set (ground (arith, h, miss, got)))
  ]
]
