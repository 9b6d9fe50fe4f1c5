-- ===== src/RateLimit/Limiter/Bounds.antt =====
-- crates/ratelimit/src/lib.rs: the tokens of a bucket, and how many requests a burst is allowed.
use mathlib.Core.Path.{subst}
use kit.Prelude.{
  ◌≤◌, Bool, true, false, Option, none, some, String, ◌≡◌, refl, ap, ◌∙◌, arith, str_eq,
  if◌then◌else◌, Bool-cases, inl, inr,
}
use kit.RateLimit.Float.{Float, IsFloat, zero_of, max, min, u32_max}
use kit.RateLimit.Limiter.{
  Quota, Bucket, Buckets, entry, refilled_tokens, refill, consume, try_consume, check, prune,
}

module _ (f : Float) (laws : IsFloat f) (quota : Quota f) (small : quota.capacity ≤ u32_max) where
  -- Not below 0, not above the capacity.
  pub record IsBucket (b : Bucket f) : Type 0 where
    pub lower : f.le (zero_of f) b.tokens ≡ true
    pub upper : f.le b.tokens (f.of_u32 quota.capacity) ≡ true

  abbrev pub IsBuckets : Buckets f → Type 0
  IsBuckets buckets = (k : String) (b : Bucket f) → buckets k ≡ some b → IsBucket b

  capacity_pos : f.le (zero_of f) (f.of_u32 quota.capacity) ≡ true
  capacity_pos = laws.of_u32_le 0 quota.capacity (omega arith) small ∙ ground arith

  max_pos : (a : f.F) → f.le (zero_of f) (max f a (zero_of f)) ≡ true
  max_pos a = elim (Bool-cases (f.le a (zero_of f))) [
    | inl t ↦ ap (λ b. f.le (zero_of f) (if b then zero_of f else a)) t ∙ laws.le_refl (zero_of f)
    | inr n ↦
        ap (λ b. f.le (zero_of f) (if b then zero_of f else a)) n ∙ laws.le_total a (zero_of f) n
  ]

  min_le : (a b : f.F) → f.le (min f a b) b ≡ true
  min_le a b = elim (Bool-cases (f.le a b)) [
    | inl t ↦ ap (λ c. f.le (if c then a else b) b) t ∙ t
    | inr n ↦ ap (λ c. f.le (if c then a else b) b) n ∙ laws.le_refl b
  ]

  le_min : (x a b : f.F) → f.le x a ≡ true → f.le x b ≡ true → f.le x (min f a b) ≡ true
  le_min x a b h k = elim (Bool-cases (f.le a b)) [
    | inl t ↦ ap (λ c. f.le x (if c then a else b)) t ∙ h
    | inr n ↦ ap (λ c. f.le x (if c then a else b)) n ∙ k
  ]

  module _ (refills : f.le (zero_of f) quota.refill_per_sec ≡ true) where
    -- The clock running backwards adds nothing, and refilling takes nothing.
    refilled_pos :
        (now : f.F) (b : Bucket f)
        → f.le (zero_of f) b.tokens ≡ true
        → f.le (zero_of f) (refilled_tokens f quota now b) ≡ true
    refilled_pos now b h =
        let elapsed = max f (f.sub now b.last_refill) (zero_of f) in
        let gain : f.le (zero_of f) (f.mul elapsed quota.refill_per_sec) ≡ true =
          subst (λ z. f.le z (f.mul elapsed quota.refill_per_sec) ≡ true)
            (laws.zero_mul quota.refill_per_sec)
            (laws.mul_mono (zero_of f) elapsed quota.refill_per_sec
              (max_pos (f.sub now b.last_refill)) refills) in
        let more = laws.add_mono (zero_of f) (f.mul elapsed quota.refill_per_sec) b.tokens gain in
        laws.le_trans (zero_of f) b.tokens _ h
          (subst (λ z. f.le z (refilled_tokens f quota now b) ≡ true) (laws.add_zero b.tokens) more)

    refill-IsBucket : (now : f.F) (b : Bucket f) → IsBucket b → IsBucket (refill f quota now b)
    unfolding refill
    refill-IsBucket now b h = record {
      lower =
          le_min (zero_of f) (refilled_tokens f quota now b) (f.of_u32 quota.capacity)
            (refilled_pos now b h.lower) capacity_pos;
      upper = min_le (refilled_tokens f quota now b) (f.of_u32 quota.capacity);
    }

    entry-IsBucket :
        (now : f.F) (o : Option (Bucket f))
        → ((b : Bucket f) → o ≡ some b → IsBucket b)
        → IsBucket (entry f quota now o)
    unfolding entry
    entry-IsBucket now none h = record {
      lower = capacity_pos;
      upper = laws.le_refl (f.of_u32 quota.capacity);
    }
    entry-IsBucket now (some b) h = h b refl

    consume-IsBucket : (b : Bucket f) → IsBucket b → IsBucket (consume f quota (f.of_u32 1) b).1
    unfolding consume
    consume-IsBucket b h = by_test (f.le (f.of_u32 1) b.tokens) refl
      where
        by_test :
            (t : Bool)
            → f.le (f.of_u32 1) b.tokens ≡ t
            → let answer : Bool × Bucket f =
                if t
                then (true, record b { tokens = f.sub b.tokens (f.of_u32 1) })
                else (false, b) in
              IsBucket answer.1
        by_test true e = record {
          lower = laws.sub_pos b.tokens (f.of_u32 1) e;
          upper =
              laws.le_trans _ b.tokens _
                (laws.sub_le b.tokens (f.of_u32 1) (laws.of_u32_le 0 1 (omega arith) (omega arith)))
                h.upper;
        }
        by_test false e = h

    check-IsBuckets :
        (now : f.F) (key : String) (buckets : Buckets f)
        → IsBuckets buckets
        → IsBuckets (check f quota now key buckets).1
    unfolding check try_consume
    check-IsBuckets now key buckets h k b e =
        let used =
          consume-IsBucket _ (refill-IsBucket now _ (entry-IsBucket now (buckets key) (h key))) in
        elim (Bool-cases (str_eq k key)) [
          | inl t ↦ subst IsBucket (ground (arith, e, t)) used
          | inr n ↦ h k b (ground (arith, e, n))
        ]

    prune-IsBuckets :
        (now : f.F) (buckets : Buckets f)
        → IsBuckets buckets
        → IsBuckets (prune f quota now buckets)
    unfolding prune
    prune-IsBuckets now buckets h k b e = h k b (ground (arith, e))

    -- Any calls of `check` and `prune`, at any readings of the clock.
    pub data Reach : Buckets f → Type 0 where
      empty : Reach (λ k. none)
      checked :
          {buckets : Buckets f} (now : f.F) (key : String)
          → Reach buckets
          → Reach (check f quota now key buckets).1
      pruned : {buckets : Buckets f} (now : f.F) → Reach buckets → Reach (prune f quota now buckets)

    -- Whatever calls have been made, even if the clock ran backwards, no bucket holds less than no
    -- token or more than the capacity. The rate must not be negative.
    pub Reach-IsBuckets : {buckets : Buckets f} → Reach buckets → IsBuckets buckets
    Reach-IsBuckets empty k b e = absurd (cc (e))
    Reach-IsBuckets (checked {buckets} now key r) k b e =
        check-IsBuckets now key buckets (Reach-IsBuckets r) k b e
    Reach-IsBuckets (pruned {buckets} now r) k b e =
        prune-IsBuckets now buckets (Reach-IsBuckets r) k b e
