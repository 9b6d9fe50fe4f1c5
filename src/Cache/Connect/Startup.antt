-- ===== src/Cache/Connect/Startup.antt =====
-- crates/cache/src/lib.rs: when `connect` fails.
use kit.Prelude.{
  ℕ, false, List, ◌≡◌, ◌⊎◌, inl, inr, refl, ap, ◌∙◌, arith, Bool-cases, Option-cases, err,
  Result-cases,
}
use kit.Cache.Connect.{
  CacheConfig, Error, Waited, ConnectError, Fred, connected, failed, elapsed, no_pool, refused,
  is_transient, configured, build, after_wait, connect,
}

module _ (f : Fred) (config : CacheConfig) where
  build_err : (cfg : f.Config) (e : ConnectError) → build f config cfg ≡ err e → e ≡ no_pool
  unfolding build
  build_err cfg e h = elim (Option-cases (f.new_pool cfg config.pool_size)) [
    | inl missing ↦ ground (arith, h, missing)
    | inr (p, made) ↦ absurd (ground (arith, h, made))
  ]

  -- A failure that is worth another attempt is not reported.
  abbrev pub IsRefusal : Waited → ConnectError → Type 0
  IsRefusal w e = (x : Error) × (w ≡ failed x) × (is_transient x ≡ false) × (e ≡ refused x)

  after_wait_err :
      (cfg : f.Config) (probe : f.Pool) (w : Waited) (e : ConnectError)
      → after_wait f config cfg probe w ≡ err e
      → (e ≡ no_pool) ⊎ IsRefusal w e
  unfolding after_wait
  after_wait_err cfg probe connected e h = absurd (cc)
  after_wait_err cfg probe elapsed e h = inl (build_err (f.with_fail_fast false cfg) e h)
  after_wait_err cfg probe (failed x) e h = elim (Bool-cases (is_transient x)) [
    | inl worth ↦ inl (build_err (f.with_fail_fast false cfg) e (ground (arith, h, worth)))
    | inr lost ↦ inr (x, refl, lost, ground (arith, h, lost))
  ]

  -- `connect` fails only for the configuration, for a pool that cannot be built, or for a server that
  -- answered with an error that is not transient. A server that is not there, or does not answer in
  -- time, makes it fail in no other way than that the pool cannot be built.
  pub connect_errors :
      (encode : List ℕ → List ℕ) (wait : f.Pool → Waited) (e : ConnectError)
      → connect f encode wait config ≡ err e
      → (configured f encode config ≡ err e)
        ⊎ ((e ≡ no_pool) ⊎ ((probe : f.Pool) × IsRefusal (wait probe) e))
  unfolding connect
  connect_errors encode wait e h = elim (Result-cases (configured f encode config)) [
    | inl (x, bad) ↦ inl (bad ∙ ground (arith, h, bad))
    | inr (cfg, good) ↦ elim (Result-cases (build f config cfg)) [
      | inl (x, bad) ↦
          let same : x ≡ e = ground (arith, h, good, bad) in
          inr (inl (build_err cfg e (bad ∙ ap err same)))
      | inr (probe, made) ↦
          elim (after_wait_err cfg probe (wait probe) e (ground (arith, h, good, made))) [
            | inl k ↦ inr (inl k)
            | inr r ↦ inr (inr (probe, r))
          ]
    ]
  ]
