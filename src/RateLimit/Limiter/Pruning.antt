-- ===== src/RateLimit/Limiter/Pruning.antt =====
-- crates/ratelimit/src/lib.rs: `prune` drops buckets and changes no answer.
use kit.Prelude.{
  Bool, true, false, not, Option, none, some, String, List, [], ◌∷◌, ◌≡◌, ◌⊎◌, inl, inr, refl, sym,
  ap, ◌∙◌, str_eq, if◌then◌else◌, Bool-cases,
}
use kit.RateLimit.Float.{Float, IsFloat, zero_of, max, min}
use kit.RateLimit.Limiter.{
  Quota, Bucket, Buckets, entry, refilled_tokens, refill, consume, try_consume, check, checks,
  prune,
}

module _ (f : Float) (laws : IsFloat f) (quota : Quota f) where
  abbrev cap : f.F
  cap = f.of_u32 quota.capacity

  -- Refilled at this time the bucket is full.
  abbrev IsFull : f.F → Bucket f → Type 0
  IsFull now b = f.le cap (refilled_tokens f quota now b) ≡ true

  -- The second bucket is the first, or is gone where the first would be full.
  abbrev Alike : f.F → Option (Bucket f) → Option (Bucket f) → Type 0
  Alike now whole pruned =
      (pruned ≡ whole) ⊎ ((b : Bucket f) × (whole ≡ some b) × (pruned ≡ none) × IsFull now b)

  full_refill :
      (now : f.F) (b : Bucket f)
      → IsFull now b
      → refill f quota now b ≡ record { tokens = cap; last_refill = now }
  unfolding refill
  full_refill now b full = elim (Bool-cases (f.le (refilled_tokens f quota now b) cap)) [
    | inl t ↦
        let eq : refilled_tokens f quota now b ≡ cap = laws.le_antisym _ _ t full in
        ap (λ x. record { tokens = min f x cap; last_refill = now }) eq
        ∙ ap (λ c. record { tokens = if c then cap else cap; last_refill = now }) (laws.le_refl cap)
    | inr n ↦
        ap
          (λ c. record {
            tokens = if c then refilled_tokens f quota now b else cap;
            last_refill = now;
          })
          n
  ]

  max_mono : (a b : f.F) → f.le a b ≡ true → f.le (max f a (zero_of f)) (max f b (zero_of f)) ≡ true
  max_mono a b h = elim (Bool-cases (f.le a (zero_of f))) [
    | inl t ↦ ap (λ c. f.le (if c then zero_of f else a) (max f b (zero_of f))) t ∙ above_zero b
    | inr n ↦
        let b_above : f.le b (zero_of f) ≡ false = elim (Bool-cases (f.le b (zero_of f))) [
          | inl u ↦ absurd (cc (laws.le_trans a b (zero_of f) h u, n))
          | inr m ↦ m
        ] in
        ap (λ c. f.le (if c then zero_of f else a) (max f b (zero_of f))) n
        ∙ ap (λ c. f.le a (if c then zero_of f else b)) b_above
        ∙ h
  ]
    where
      above_zero : (b : f.F) → f.le (zero_of f) (max f b (zero_of f)) ≡ true
      above_zero b = elim (Bool-cases (f.le b (zero_of f))) [
        | inl t ↦
            ap (λ c. f.le (zero_of f) (if c then zero_of f else b)) t ∙ laws.le_refl (zero_of f)
        | inr n ↦
            ap (λ c. f.le (zero_of f) (if c then zero_of f else b)) n
            ∙ laws.le_total b (zero_of f) n
      ]

  -- A bucket that was just created is full, as is one that was full earlier.
  new-IsFull : (now : f.F) → IsFull now (record { tokens = cap; last_refill = now })
  new-IsFull now =
      ap (λ a. f.le cap (f.add cap (f.mul (max f a (zero_of f)) quota.refill_per_sec)))
        (laws.sub_self now)
      ∙ ap
          (λ c.
            f.le cap (f.add cap (f.mul (if c then zero_of f else zero_of f) quota.refill_per_sec)))
          (laws.le_refl (zero_of f))
      ∙ ap (λ a. f.le cap (f.add cap a)) (laws.zero_mul quota.refill_per_sec)
      ∙ ap (f.le cap) (laws.add_zero cap)
      ∙ laws.le_refl cap

  module _ (refills : f.le (zero_of f) quota.refill_per_sec ≡ true) where
    IsFull-later :
        (now later : f.F) (b : Bucket f) → f.le now later ≡ true → IsFull now b → IsFull later b
    IsFull-later now later b h full =
        laws.le_trans cap (refilled_tokens f quota now b) (refilled_tokens f quota later b) full (
          laws.add_mono _ _ b.tokens (
            laws.mul_mono _ _ quota.refill_per_sec
              (max_mono _ _ (laws.sub_mono now later b.last_refill h)) refills))

    Alike-later :
        (now later : f.F) (whole pruned : Option (Bucket f))
        → f.le now later ≡ true
        → Alike now whole pruned
        → Alike later whole pruned
    Alike-later now later whole pruned h (inl e) = inl e
    Alike-later now later whole pruned h (inr (b, e, g, full)) =
        inr (b, e, g, IsFull-later now later b h full)

    -- What a check works on is the same bucket.
    Alike-refill :
        (now : f.F) (whole pruned : Option (Bucket f))
        → Alike now whole pruned
        → refill f quota now (entry f quota now pruned)
          ≡ refill f quota now (entry f quota now whole)
    unfolding entry
    Alike-refill now whole pruned (inl e) = ap (λ o. refill f quota now (entry f quota now o)) e
    Alike-refill now whole pruned (inr (b, e, g, full)) =
        ap (λ o. refill f quota now (entry f quota now o)) g
        ∙ full_refill now (record { tokens = cap; last_refill = now }) (new-IsFull now)
        ∙ sym (full_refill now b full)
        ∙ ap (λ o. refill f quota now (entry f quota now o)) (sym e)

    abbrev AlikeAll : f.F → Buckets f → Buckets f → Type 0
    AlikeAll now whole pruned = (k : String) → Alike now (whole k) (pruned k)

    prune-Alike :
        (now : f.F) (buckets : Buckets f) → AlikeAll now buckets (prune f quota now buckets)
    unfolding prune
    prune-Alike now buckets k = by_bucket (buckets k)
      where
        by_bucket :
            (o : Option (Bucket f))
            → Alike now o (elim o [
              | none ↦ none
              | some b ↦ if not (f.le cap (refilled_tokens f quota now b)) then some b else none
            ])
        by_bucket none = inl refl
        by_bucket (some b) = elim (Bool-cases (f.le cap (refilled_tokens f quota now b))) [
          | inl t ↦ inr (b, refl, ap (λ c. if not c then some b else none) t, t)
          | inr n ↦ inl (ap (λ c. if not c then some b else none) n)
        ]

    check-Alike :
        (now : f.F) (key : String) (whole pruned : Buckets f)
        → AlikeAll now whole pruned
        → ((check f quota now key pruned).0 ≡ (check f quota now key whole).0)
          × AlikeAll now (check f quota now key whole).1 (check f quota now key pruned).1
    unfolding check try_consume
    check-Alike now key whole pruned h =
        let answer =
          ap (consume f quota (f.of_u32 1)) (Alike-refill now (whole key) (pruned key) (h key)) in
        (ap (λ a. a.0) answer, λ k. by_key k (str_eq k key) (ap (λ a. a.1) answer))
      where
        by_key :
            (k : String) (same : Bool) {b b' : Bucket f}
            → b ≡ b'
            → Alike now (if same then some b' else whole k) (if same then some b else pruned k)
        by_key k true e = inl (ap some e)
        by_key k false e = h k

    -- The readings never go back, and the first is not before `now`.
    abbrev pub Ordered : f.F → List (f.F × String) → Type 0
    Ordered now [] = Unit
    Ordered now ((t, key) ∷ calls) = (f.le now t ≡ true) × Ordered t calls

    checks-Alike :
        (now : f.F) (calls : List (f.F × String)) (whole pruned : Buckets f)
        → Ordered now calls
        → AlikeAll now whole pruned
        → (checks f quota calls pruned).0 ≡ (checks f quota calls whole).0
    unfolding checks
    checks-Alike now [] whole pruned o h = refl
    checks-Alike now ((t, key) ∷ calls) whole pruned o h =
        let (answer, after) =
          check-Alike t key whole pruned (λ k. Alike-later now t (whole k) (pruned k) o.0 (h k)) in
        ap (λ a. a ∷ (checks f quota calls (check f quota t key pruned).1).0) answer
        ∙ ap (λ rest. (check f quota t key whole).0 ∷ rest)
            (checks-Alike t calls (check f quota t key whole).1 (check f quota t key pruned).1 o.1
              after)

    -- Pruning changes no answer: every later sequence of requests, of whatever keys, is answered as
    -- it would be without it, if the clock does not run backwards and the rate is not negative.
    pub prune_unobservable :
        (now : f.F) (calls : List (f.F × String)) (buckets : Buckets f)
        → Ordered now calls
        → (checks f quota calls (prune f quota now buckets)).0 ≡ (checks f quota calls buckets).0
    prune_unobservable now calls buckets o =
        checks-Alike now calls buckets (prune f quota now buckets) o (prune-Alike now buckets)
