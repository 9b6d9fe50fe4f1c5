-- ===== src/RateLimit/Limiter.antt =====
-- crates/ratelimit/src/lib.rs: `InMemoryRateLimiter`. The map of buckets is a function of the key;
-- the clock's reading is an argument. A call holds the entry of its key, so calls are atomic.
pub mod Bounds
pub mod Burst
pub mod Pruning
use kit.Prelude.{
  ℕ, Bool, true, false, not, Option, none, some, String, List, [], ◌∷◌, str_eq, if◌then◌else◌,
}
use kit.RateLimit.Float.{Float, zero_of, max, min}

pub record Quota (f : Float) : Type 0 where
  pub capacity : ℕ  -- u32
  pub refill_per_sec : f.F

pub record Bucket (f : Float) : Type 0 where
  pub tokens : f.F
  pub last_refill : f.F

-- `DashMap<String, Bucket>`
abbrev pub Buckets : Float → Type 0
Buckets f = String → Option (Bucket f)

module _ (f : Float) (quota : Quota f) where
  abbrev pub capacity : f.F
  capacity = f.of_u32 quota.capacity

  -- The bucket that `entry(key).or_insert(…)` gives.
  unfoldable pub entry : f.F → Option (Bucket f) → Bucket f
  entry now none = record { tokens = capacity; last_refill = now }
  entry now (some b) = b

  abbrev pub refilled_tokens : f.F → Bucket f → f.F
  refilled_tokens now b =
      f.add b.tokens (f.mul (max f (f.sub now b.last_refill) (zero_of f)) quota.refill_per_sec)

  unfoldable pub refill : f.F → Bucket f → Bucket f
  refill now b = record { tokens = min f (refilled_tokens now b) capacity; last_refill = now }

  -- The answer, and the bucket that stays.
  unfoldable pub consume : f.F → Bucket f → Bool × Bucket f
  consume cost b =
      if f.le cost b.tokens then (true, record b { tokens = f.sub b.tokens cost }) else (false, b)

  unfoldable pub try_consume : f.F → String → f.F → Buckets f → Bool × Buckets f
  try_consume now key cost buckets =
      let (allowed, b) = consume cost (refill now (entry now (buckets key))) in
      (allowed, λ k. if str_eq k key then some b else buckets k)

  unfoldable pub check : f.F → String → Buckets f → Bool × Buckets f
  check now key buckets = try_consume now key (f.of_u32 1) buckets

  -- What `retain` keeps: a < b is that b ≤ a does not hold.
  abbrev pub is_draining : f.F → Bucket f → Bool
  is_draining now b = not (f.le capacity (refilled_tokens now b))

  unfoldable pub prune : f.F → Buckets f → Buckets f
  prune now buckets =
      λ k. elim (buckets k) [ none ↦ none | some b ↦ if is_draining now b then some b else none ]

  -- The answers to checks at these times and keys, in turn, and the buckets that stay.
  unfoldable pub checks : List (f.F × String) → Buckets f → List Bool × Buckets f
  checks [] buckets = ([], buckets)
  checks ((now, key) ∷ calls) buckets =
      let (allowed, buckets') = check now key buckets in
      let (answers, last) = checks calls buckets' in (allowed ∷ answers, last)
