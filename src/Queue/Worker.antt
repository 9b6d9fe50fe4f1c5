-- ===== src/Queue/Worker.antt =====
-- crates/queue/src/worker.rs: claiming, processing and sweeping. The handler and the decoding of
-- the payload are parameters; each SQL statement is one atomic step on the table.
pub mod Claiming
pub mod Retries
pub mod Invariant
pub mod Lifecycle
use kit.Prelude.{
  ℕ, ◌+◌, ◌-◌, ◌*◌, Bool, true, false, not, ◌&&◌, ◌||◌, Option, none, some, String, List, [], ◌∷◌,
  ◌++◌, str_eq, ltb, leb, ◌==◌, if◌then◌else◌, Result, ok, err,
}
use Prim.Native.String.{◌++◌ as str_append}
use kit.Prelude.Int.{ltb_ℤ}
use kit.Queue.Job.{JobStatus, queued, running, done, failed, dead, backoff_seconds}
use kit.Queue.Table.{Row}
use kit.Prelude.Rows.{update_where, find}

-- What the handler answers: `Ok`, or a `WorkerError` with its text.
pub data Outcome : Type 0 where
  handled : Outcome
  permanent : String → Outcome
  retriable : String → Outcome

abbrev pub is_claimable : JobStatus → Bool
is_claimable queued = true
is_claimable failed = true
is_claimable _ = false

-- The inner WHERE of `claim_one`. `skip` tells the rows that another transaction has locked.
unfoldable pub eligible : (Row → Bool) → ℕ → String → Row → Bool
eligible skip now queue r =
    str_eq r.queue queue
    && (is_claimable r.status
        && (leb r.run_at now && (ltb r.attempts r.max_attempts && not (skip r))))

-- ORDER BY priority DESC, run_at ASC.
unfoldable pub precedes : Row → Row → Bool
precedes a b =
    ltb_ℤ b.priority a.priority || (not (ltb_ℤ a.priority b.priority) && ltb a.run_at b.run_at)

-- The row that ORDER BY … LIMIT 1 gives; of equal rows the first.
unfoldable pub pick : (Row → Bool) → List Row → Option Row
pick p [] = none
pick p (r ∷ rs) =
    let rest = pick p rs in
    if p r
    then elim rest [ none ↦ some r | some b ↦ if precedes b r then some b else some r ]
    else rest

abbrev pub claim_row : ℕ → String → Row → Row
claim_row now worker_id r = record r {
  status = running;
  locked_at = some now;
  locked_by = some worker_id;
  attempts = r.attempts + 1;
  started_at = elim r.started_at [ none ↦ some now | some t ↦ some t ];
}

-- The row that RETURNING gives, and the table.
unfoldable pub claim_one : (Row → Bool) → ℕ → String → String → List Row → Option Row × List Row
claim_one skip now queue worker_id jobs = elim (pick (eligible skip now queue) jobs) [
  | none ↦ (none, jobs)
  | some r ↦ (
    some (claim_row now worker_id r),
    update_where (λ j. j.id == r.id) (claim_row now worker_id) jobs,
  )
]

abbrev pub done_row : ℕ → Row → Row
done_row now r = record r {
  status = done;
  completed_at = some now;
  last_error = none;
  locked_at = none;
  locked_by = none;
}

abbrev pub dead_row : ℕ → String → Row → Row
dead_row now msg r = record r {
  status = dead;
  completed_at = some now;
  last_error = some msg;
  locked_at = none;
  locked_by = none;
}

abbrev pub failed_row : String → ℕ → Row → Row
failed_row msg next_run r = record r {
  status = failed;
  last_error = some msg;
  run_at = next_run;
  locked_at = none;
  locked_by = none;
}

unfoldable pub mark_done : ℕ → ℕ → List Row → List Row
mark_done now id = update_where (λ j. j.id == id) (done_row now)

unfoldable pub mark_dead : ℕ → ℕ → String → List Row → List Row
mark_dead now id msg = update_where (λ j. j.id == id) (dead_row now msg)

unfoldable pub mark_failed_for_retry : ℕ → String → ℕ → List Row → List Row
mark_failed_for_retry id msg next_run = update_where (λ j. j.id == id) (failed_row msg next_run)

abbrev pub second : ℕ
second = 1000000

unfoldable pub retry_or_bury : ℕ → ℕ → ℕ → ℕ → String → List Row → List Row
retry_or_bury now id attempts max_attempts msg jobs =
    if leb max_attempts attempts
    then mark_dead now id msg jobs
    else mark_failed_for_retry id msg (now + backoff_seconds attempts * second) jobs

-- The job that the handler is given.
pub record Job (P : Type 0) : Type 0 where
  pub id : ℕ
  pub payload : P
  pub attempt : ℕ
  pub max_attempts : ℕ
  pub queue : String
  pub org_id : Option ℕ
  pub actor_id : Option ℕ
  pub run_at : ℕ
  pub created_at : ℕ

abbrev pub job_of : {P : Type 0} → String → Row → P → Job P
job_of queue claimed payload = record {
  id = claimed.id;
  payload = payload;
  attempt = claimed.attempts;
  max_attempts = claimed.max_attempts;
  queue = queue;
  org_id = claimed.org_id;
  actor_id = claimed.actor_id;
  run_at = claimed.run_at;
  created_at = claimed.created_at;
}

-- The `match` on the handler's answer.
unfoldable pub settle : ℕ → Row → Outcome → List Row → List Row
settle now claimed handled jobs = mark_done now claimed.id jobs
settle now claimed (permanent msg) jobs = mark_dead now claimed.id msg jobs
settle now claimed (retriable msg) jobs =
    retry_or_bury now claimed.id claimed.attempts claimed.max_attempts msg jobs

-- The payload's text of a decoding error, or the handler's answer.
unfoldable pub outcome_of :
    {P : Type 0} → (Job P → Outcome) → String → Row → Result String P → Outcome
outcome_of handle queue claimed (err e) =
    permanent (str_append "payload deserialization failed: " e)
outcome_of handle queue claimed (ok payload) = handle (job_of queue claimed payload)

-- What the loop does with a claimed row. `decode` is `serde_json::from_value`, with the text of its
-- error; `handle` is the worker. A row that does not decode is marked dead, as a permanent error is.
module _ {P : Type 0} (decode : ℕ → Result String P) (handle : Job P → Outcome) where
  -- `now` is the time when the handler has answered.
  unfoldable pub process_claimed : ℕ → String → Row → List Row → List Row
  process_claimed now queue claimed jobs =
      settle now claimed (outcome_of handle queue claimed (decode claimed.payload)) jobs

  -- One round of `run_loop` at one time: claim and process, or wait.
  unfoldable pub run_once : (Row → Bool) → String → String → ℕ → List Row → List Row
  run_once skip queue worker_id now jobs =
      let (claimed, jobs') = claim_one skip now queue worker_id jobs in
      elim claimed [ none ↦ jobs' | some c ↦ process_claimed now queue c jobs' ]

-- A running row whose lock is older than the cutoff, of whatever queue.
abbrev pub is_stale : ℕ → Row → Bool
is_stale cutoff r = elim r.status [
  | running ↦ elim r.locked_at [ none ↦ false | some t ↦ ltb t cutoff ]
  | _ ↦ false
]

abbrev pub release_row : Row → Row
release_row r = record r { status = queued; locked_at = none; locked_by = none }

-- One round of `sweeper_loop`, its age in whole seconds. Before the epoch `-` stops at 0, where no lock is older either.
unfoldable pub sweep : ℕ → ℕ → List Row → List Row
sweep now stale_secs jobs = update_where (is_stale (now - stale_secs * second)) release_row jobs
