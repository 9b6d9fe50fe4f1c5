-- ===== src/Queue/Table.antt =====
-- crates/queue/src/schema.rs: the `jobs` table, as the statements of queue.rs and worker.rs see it.
-- Times are microseconds; ids and the JSON payload are numbers.
use kit.Prelude.{ℕ, Option, String}
use kit.Prelude.Int.{ℤ}
use kit.Queue.Job.{JobStatus}

pub record Row : Type 0 where
  pub id : ℕ
  pub queue : String
  pub payload : ℕ
  pub status : JobStatus
  pub priority : ℤ
  pub attempts : ℕ
  pub max_attempts : ℕ
  pub run_at : ℕ
  pub locked_at : Option ℕ
  pub locked_by : Option String
  pub last_error : Option String
  pub idempotency_key : Option String
  pub org_id : Option ℕ
  pub actor_id : Option ℕ
  pub created_at : ℕ
  pub started_at : Option ℕ
  pub completed_at : Option ℕ
