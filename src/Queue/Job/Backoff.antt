-- ===== src/Queue/Job/Backoff.antt =====
-- crates/queue/src/job.rs: `backoff_seconds` is the capped power of two, for every attempt.
use kit.Prelude.{ℕ, ◌+◌, ◌^◌, ◌≤◌, ◌≡◌, ltb, if◌then◌else◌, arith}
use native.Mathlib.Nat.{pow-le-pow_right, one-le-pow}
use kit.Queue.Job.{backoff_seconds}

small_pow : (k : ℕ) → k ≤ 11 → 2 ^ k ≤ 2 ^ 11
small_pow k h = pow-le-pow_right (omega arith) h

large_pow : (k : ℕ) → 12 ≤ k → 2 ^ 12 ≤ 2 ^ k
large_pow k h = pow-le-pow_right (omega arith) h

pow_pos : (k : ℕ) → 1 ≤ 2 ^ k
pow_pos k = one-le-pow k 2 (omega arith)

capped : (a : ℕ) → backoff_seconds a ≡ (if ltb a 12 then 2 ^ a else 3600)
unfolding backoff_seconds
capped a = ground (arith, small_pow a, large_pow a)

-- The delay is two to the attempt, capped at an hour, also where the power saturates: it is never 0,
-- and a later attempt never waits less.
pub backoff_seconds_lem :
    (attempt : ℕ)
    → (backoff_seconds attempt ≡ (if ltb attempt 12 then 2 ^ attempt else 3600))
      × (1 ≤ backoff_seconds attempt)
      × (backoff_seconds attempt ≤ 3600)
      × (backoff_seconds attempt ≤ backoff_seconds (attempt + 1))
backoff_seconds_lem a =
    let now = capped a in
    let next = capped (a + 1) in
    let pos = pow_pos a in
    let double : 2 ^ a ≤ 2 ^ (a + 1) = pow-le-pow_right (omega arith) (omega arith) in
    (now, ground (arith, pos), ground (arith, small_pow a), ground (arith, small_pow a, double))
