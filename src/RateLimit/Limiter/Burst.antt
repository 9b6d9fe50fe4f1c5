-- ===== src/RateLimit/Limiter/Burst.antt =====
-- crates/ratelimit/src/lib.rs: how many requests at one time are allowed.
use kit.Prelude.{
  ℕ, zero, suc, ◌≤◌, Bool, true, false, none, some, String, List, ◌∷◌, ◌++◌, ◌≡◌, refl, ap, ◌∙◌,
  arith, str_eq, eq_iff, if◌then◌else◌, replicate,
}
use kit.RateLimit.Float.{Float, IsFloat, zero_of, max, min, u32_max}
use kit.RateLimit.Limiter.{
  Quota, Bucket, Buckets, entry, refilled_tokens, refill, consume, try_consume, check, checks,
}

module _ (f : Float) (laws : IsFloat f) (quota : Quota f) (small : quota.capacity ≤ u32_max)
    (now : f.F) (key : String) where
  -- A bucket of `n` tokens that was refilled just now.
  abbrev holding : ℕ → Bucket f
  holding n = record { tokens = f.of_u32 n; last_refill = now }

  abbrev Holds : ℕ → Buckets f → Type 0
  Holds n buckets = entry f quota now (buckets key) ≡ holding n

  no_time : max f (f.sub now now) (zero_of f) ≡ zero_of f
  no_time =
      ap (λ a. max f a (zero_of f)) (laws.sub_self now)
      ∙ ap (λ b. if b then zero_of f else zero_of f) (laws.le_refl (zero_of f))

  refill-holding : (n : ℕ) → n ≤ quota.capacity → refill f quota now (holding n) ≡ holding n
  unfolding refill
  refill-holding n h =
      let same : refilled_tokens f quota now (holding n) ≡ f.of_u32 n =
        ap (λ e. f.add (f.of_u32 n) (f.mul e quota.refill_per_sec)) no_time
        ∙ ap (f.add (f.of_u32 n)) (laws.zero_mul quota.refill_per_sec)
        ∙ laws.add_zero (f.of_u32 n) in
      let fits : f.le (f.of_u32 n) (f.of_u32 quota.capacity) ≡ true =
        laws.of_u32_le n quota.capacity (omega (arith, h, small)) small ∙ ground (arith, h) in
      let cut : min f (f.of_u32 n) (f.of_u32 quota.capacity) ≡ f.of_u32 n =
        ap (λ b. if b then f.of_u32 n else f.of_u32 quota.capacity) fits in
      ap (λ t. record { tokens = t; last_refill = now })
        (ap (λ t. min f t (f.of_u32 quota.capacity)) same ∙ cut)

  consume_one :
      (n : ℕ)
      → suc n ≤ quota.capacity
      → consume f quota (f.of_u32 1) (holding (suc n)) ≡ (true, holding n)
  unfolding consume
  consume_one n fits =
      let in_range : suc n ≤ u32_max = omega (arith, fits, small) in
      let enough : f.le (f.of_u32 1) (f.of_u32 (suc n)) ≡ true =
        laws.of_u32_le 1 (suc n) (omega arith) in_range ∙ ground arith in
      ap
        (λ b.
          if b
          then (true, record { tokens = f.sub (f.of_u32 (suc n)) (f.of_u32 1); last_refill = now })
          else (false, holding (suc n)))
        enough
      ∙ ap (λ t. (true, record { tokens = t; last_refill = now })) (laws.sub_one n in_range)

  consume_none : consume f quota (f.of_u32 1) (holding 0) ≡ (false, holding 0)
  unfolding consume
  consume_none =
      ap
        (λ b.
          if b
          then (true, record { tokens = f.sub (f.of_u32 0) (f.of_u32 1); last_refill = now })
          else (false, holding 0))
        (laws.of_u32_le 1 0 (omega arith) (omega arith))

  -- One check of a bucket that holds `n` tokens.
  check-Holds :
      (n m : ℕ) (allowed : Bool) (buckets : Buckets f)
      → n ≤ quota.capacity
      → consume f quota (f.of_u32 1) (holding n) ≡ (allowed, holding m)
      → Holds n buckets
      → ((check f quota now key buckets).0 ≡ allowed) × Holds m (check f quota now key buckets).1
  unfolding check try_consume entry
  check-Holds n m allowed buckets fits used h =
      let answer : consume f quota (f.of_u32 1)
            (refill f quota now (entry f quota now (buckets key)))
          ≡ (allowed, holding m) =
        ap (λ b. consume f quota (f.of_u32 1) (refill f quota now b)) h
        ∙ ap (consume f quota (f.of_u32 1)) (refill-holding n fits)
        ∙ used in
      let self : str_eq key key ≡ true = ground (arith, eq_iff key key) in
      (
        ap (λ a. a.0) answer,
        ap
              (λ b. entry f quota now (
                if b
                then some
                    (consume f quota (f.of_u32 1)
                      (refill f quota now (entry f quota now (buckets key)))).1
                else buckets key))
              self
            ∙ ap (λ a. a.1) answer,
      )

  -- The answers of a first call and of the others.
  checks-cons :
      (calls : List (f.F × String)) (buckets : Buckets f)
      → (checks f quota ((now, key) ∷ calls) buckets).0
        ≡ (check f quota now key buckets).0
          ∷ (checks f quota calls (check f quota now key buckets).1).0
  unfolding checks
  checks-cons calls buckets = refl

  refused :
      (k : ℕ) (buckets : Buckets f)
      → Holds 0 buckets
      → (checks f quota (replicate k (now, key)) buckets).0 ≡ replicate k false
  unfolding checks
  refused zero buckets h = refl
  refused (suc k) buckets h =
      let (refusal, empty) = check-Holds 0 0 false buckets (omega arith) consume_none h in
      ap (λ a. a ∷ (checks f quota (replicate k (now, key)) (check f quota now key buckets).1).0)
        refusal
      ∙ ap (λ rest. false ∷ rest) (refused k (check f quota now key buckets).1 empty)

  spends :
      (n k : ℕ) (buckets : Buckets f)
      → n ≤ quota.capacity
      → Holds n buckets
      → (checks f quota (replicate n (now, key) ++ replicate k (now, key)) buckets).0
        ≡ replicate n true ++ replicate k false
  unfolding checks
  spends zero k buckets fits h = refused k buckets h
  spends (suc n) k buckets fits h =
      let (grant, left) = check-Holds (suc n) n true buckets fits (consume_one n fits) h in
      let after = (check f quota now key buckets).1 in
      ap (λ a. a ∷ (checks f quota (replicate n (now, key) ++ replicate k (now, key)) after).0)
        grant
      ∙ ap (λ rest. true ∷ rest) (spends n k after (omega arith) left)

  -- A key that was not seen is allowed exactly as many requests at once as the capacity, and none of
  -- those that follow at that time.
  pub burst :
      (k : ℕ) (buckets : Buckets f)
      → buckets key ≡ none
      → (checks f quota (replicate quota.capacity (now, key) ++ replicate k (now, key)) buckets).0
        ≡ replicate quota.capacity true ++ replicate k false
  unfolding entry
  burst k buckets new = spends quota.capacity k buckets (omega arith) (ap (entry f quota now) new)
