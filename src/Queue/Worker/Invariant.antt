-- ===== src/Queue/Worker/Invariant.antt =====
-- crates/queue: what holds of the table after any interleaving of clients, workers and sweepers.
pub mod Distinct
pub mod Reach
use text.Mathlib.TextPositions.{eq_refl}
use kit.Prelude.{
  ℕ, ◌+◌, ◌≤◌, ◌<◌, Bool, true, false, not, ◌&&◌, ◌||◌, Option, none, some, String, List, [], ◌∷◌,
  ◌++◌, ◌≡◌, ◌≢◌, ◌⊎◌, inl, inr, refl, sym, ap, ◌∙◌, arith, str_eq, eq_iff, ◌==◌, ltb,
  if◌then◌else◌, Result, ok, err, any, Option-cases, Bool-cases,
}
use kit.Queue.Job.{JobStatus, queued, running, done, failed, cancelled, dead, is_terminal}
use kit.Queue.Table.{Row}
use kit.Prelude.Rows.{update_where, find}
use kit.Prelude.Rows.{AllRows, AllRows-update_where, AllRows-append}
use kit.Queue.Client.{
  EnqueueOptions, has_key, conflicting, new_row, enqueue, cancel, cancel_row, cancellable,
}
use kit.Queue.Worker.{
  Outcome, handled, permanent, retriable, Job, eligible, pick, claim_row, claim_one, done_row,
  dead_row, failed_row, mark_done, mark_dead, mark_failed_for_retry, retry_or_bury, process_claimed,
  is_stale, release_row, sweep,
}
use kit.Queue.Worker.Claiming.{with_id}

abbrev pub is_set {ℓ} : {A : Type ℓ} → Option A → Bool
is_set none = false
is_set (some a) = true

-- The shape of one row.
pub record IsRow (r : Row) : Type 0 where
  pub attempts_max : r.attempts ≤ r.max_attempts
  pub running_locked :
      r.status ≡ running → (is_set r.locked_at ≡ true) × (is_set r.locked_by ≡ true)
  pub running_started : r.status ≡ running → (is_set r.started_at ≡ true) × (1 ≤ r.attempts)
  pub unlocked :
      r.status ≢ running → r.status ≢ cancelled → (r.locked_at ≡ none) × (r.locked_by ≡ none)
  pub completed : is_terminal r.status ≡ true → is_set r.completed_at ≡ true

pub new_row-IsRow :
    (now fresh : ℕ) (queue : String) (payload : ℕ) (opts : EnqueueOptions)
    → IsRow (new_row now fresh queue payload opts)
unfolding new_row is_terminal
new_row-IsRow now fresh queue payload opts = ground arith

pub cancel_row-IsRow : (now : ℕ) (r : Row) → IsRow r → IsRow (cancel_row now r)
unfolding is_terminal
cancel_row-IsRow now r h = ground arith

pub done_row-IsRow : (now : ℕ) (r : Row) → IsRow r → IsRow (done_row now r)
unfolding is_terminal
done_row-IsRow now r h = ground arith

pub dead_row-IsRow : (now : ℕ) (msg : String) (r : Row) → IsRow r → IsRow (dead_row now msg r)
unfolding is_terminal
dead_row-IsRow now msg r h = ground arith

pub failed_row-IsRow :
    (msg : String) (next_run : ℕ) (r : Row) → IsRow r → IsRow (failed_row msg next_run r)
unfolding is_terminal
failed_row-IsRow msg next_run r h = ground arith

pub release_row-IsRow :
    (cutoff : ℕ) (r : Row) → is_stale cutoff r ≡ true → IsRow r → IsRow (release_row r)
unfolding is_terminal
release_row-IsRow cutoff r e h = ground arith

pub claim_row-IsRow :
    (skip : Row → Bool) (now : ℕ) (queue w : String) (r : Row)
    → eligible skip now queue r ≡ true
    → IsRow r
    → IsRow (claim_row now w r)
unfolding eligible is_terminal
claim_row-IsRow skip now queue w r e h = ground arith
