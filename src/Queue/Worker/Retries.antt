-- ===== src/Queue/Worker/Retries.antt =====
-- crates/queue/src/worker.rs: a job that keeps failing ends as dead, after its last attempt.
use kit.Prelude.{
  ℕ, ◌+◌, ◌*◌, ◌≤◌, ◌<◌, true, false, String, List, [], ◌∷◌, ◌≡◌, leb, str_eq, if◌then◌else◌,
  Result,
}
use kit.Queue.Job.{backoff_seconds}
use kit.Queue.Table.{Row}
use kit.Queue.Worker.{
  Outcome, retriable, Job, is_claimable, claim_row, dead_row, failed_row, second, outcome_of,
  run_once,
}

module _ {P : Type 0} (decode : ℕ → Result String P) (handle : Job P → Outcome)
    (queue worker_id : String) where
  -- The rounds of `run_loop` at these times, with no other transaction.
  unfoldable pub run_rounds : List ℕ → List Row → List Row
  run_rounds [] jobs = jobs
  run_rounds (now ∷ times) jobs =
      run_rounds times (run_once decode handle (λ r. false) queue worker_id now jobs)

  -- Every attempt at a row fails with a retriable error.
  abbrev pub Fails : Type 0
  Fails =
      (r : Row) → (msg : String) × (outcome_of handle queue r (decode r.payload) ≡ retriable msg)

  abbrev pub Claimable : ℕ → Row → Type 0
  Claimable now r =
      (str_eq r.queue queue ≡ true)
      × (is_claimable r.status ≡ true)
      × (r.run_at ≤ now)
      × (r.attempts < r.max_attempts)

  -- What one failed round makes of a row.
  abbrev failed_once : ℕ → String → Row → Row
  failed_once now msg r =
      let c = claim_row now worker_id r in
      if leb c.max_attempts c.attempts
      then dead_row now msg c
      else failed_row msg (now + backoff_seconds c.attempts * second) c

  -- Each time is at least an hour after the one before, the first not before `from`.
  abbrev pub Spaced : ℕ → List ℕ → Type 0
  Spaced from [] = Unit
  Spaced from (t ∷ ts) = (from ≤ t) × Spaced (t + 3600 * second) ts
