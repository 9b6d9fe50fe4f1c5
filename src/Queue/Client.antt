-- ===== src/Queue/Client.antt =====
-- crates/queue/src/queue.rs: the operations of `Queue<P>`. A statement that the database refuses
-- changes nothing; the model has the statements that run, on payloads that are JSON already.
pub mod Idempotency
use kit.Prelude.{
  ℕ, ◌+◌, Bool, true, false, not, ◌&&◌, ◌||◌, Option, none, some, String, List, [], ◌∷◌, ◌++◌, map,
  str_eq, ltb, leb, ◌==◌, if◌then◌else◌, Result, ok, err, ◌>>=◌, filter, take,
}
use kit.Prelude.Sort.{codes, sort_by}
use kit.Prelude.Int.{ℤ, pos, ltb_ℤ, pos_part}
use kit.Queue.Job.{JobStatus, queued, cancelled, is_terminal, as_str, from_str}
use kit.Queue.Table.{Row}
use kit.Prelude.Rows.{update_where, find}

pub data QueueError : Type 0 where
  row_not_found : QueueError  -- `Database(sqlx::Error::RowNotFound)`
  decode_error : String → QueueError  -- `Database(sqlx::Error::Decode(…))`
  serialize : String → QueueError
  job_not_found : ℕ → QueueError
  worker_channel_closed : QueueError

pub record EnqueueOptions : Type 0 where
  pub run_at : Option ℕ
  pub priority : ℤ
  pub max_attempts : Option ℕ  -- u32
  pub idempotency_key : Option String
  pub org_id : Option ℕ
  pub actor_id : Option ℕ

abbrev pub i32_max : ℕ
i32_max = 2147483647

-- `i32::try_from(opts.max_attempts.unwrap_or(3)).unwrap_or(3)`
unfoldable pub max_attempts_of : EnqueueOptions → ℕ
max_attempts_of opts =
    let n : ℕ = elim opts.max_attempts [ none ↦ 3 | some n ↦ n ] in if leb n i32_max then n else 3

-- The row that the INSERT writes, the columns' defaults included.
unfoldable pub new_row : ℕ → ℕ → String → ℕ → EnqueueOptions → Row
new_row now id queue payload opts = record {
  id = id;
  queue = queue;
  payload = payload;
  status = queued;
  priority = opts.priority;
  attempts = 0;
  max_attempts = max_attempts_of opts;
  run_at = elim opts.run_at [ none ↦ now | some t ↦ t ];
  locked_at = none;
  locked_by = none;
  last_error = none;
  idempotency_key = opts.idempotency_key;
  org_id = opts.org_id;
  actor_id = opts.actor_id;
  created_at = now;
  started_at = none;
  completed_at = none;
}

-- `queue = $1 AND idempotency_key = $2`; a NULL key equals nothing.
abbrev pub has_key : String → String → Row → Bool
has_key queue key r = elim r.idempotency_key [
  | none ↦ false
  | some k ↦ str_eq r.queue queue && str_eq k key
]

-- The unique index on (queue, idempotency_key).
unfoldable pub conflicting : String → Option String → List Row → Option Row
conflicting queue key jobs = elim key [ none ↦ none | some k ↦ find (has_key queue k) jobs ]

unfoldable pub is_ascii_alphanumeric : ℕ → Bool
is_ascii_alphanumeric c =
    (leb b'0' c && leb c b'9') || (leb b'A' c && leb c b'Z') || (leb b'a' c && leb c b'z')

-- Over the characters of the queue's name.
unfoldable pub notify_channel : List ℕ → List ℕ
notify_channel queue =
    codes "ferrlabs_queue_" ++ map (λ c. if is_ascii_alphanumeric c then c else b'_') queue

-- What `enqueue` leaves: the table, its result, and the notification (channel and job).
pub record Enqueued : Type 0 where
  pub jobs : List Row
  pub result : Result QueueError ℕ
  pub notified : Option (List ℕ × ℕ)

-- `fresh` is the id that `gen_random_uuid()` gives if the row is inserted.
unfoldable pub enqueue : List Row → ℕ → ℕ → String → ℕ → EnqueueOptions → Enqueued
enqueue jobs now fresh queue payload opts = elim (conflicting queue opts.idempotency_key jobs) [
  | none ↦ record {
    jobs = jobs ++ new_row now fresh queue payload opts ∷ [];
    result = ok fresh;
    notified = some (notify_channel (codes queue), fresh);
  }
  | some existing ↦ elim opts.idempotency_key [
    | none ↦ record { jobs = jobs; result = err row_not_found; notified = none }
    | some key ↦ elim (find (has_key queue key) jobs) [
      | none ↦ record { jobs = jobs; result = err row_not_found; notified = none }
      | some r ↦ record {
        jobs = jobs;
        result = ok r.id;
        notified = some (notify_channel (codes queue), r.id);
      }
    ]
  ]
]

-- The WHERE of `cancel`.
abbrev pub cancellable : ℕ → String → Row → Bool
cancellable id queue r = (r.id == id) && (str_eq r.queue queue && not (is_terminal r.status))

abbrev pub cancel_row : ℕ → Row → Row
cancel_row now r = record r { status = cancelled; completed_at = some now }

unfoldable pub cancel : List Row → ℕ → String → ℕ → Result QueueError (Unit {0}) × List Row
cancel jobs now queue id = elim (find (cancellable id queue) jobs) [
  | none ↦ (err (job_not_found id), jobs)
  | some r ↦ (ok tt, update_where (cancellable id queue) (cancel_row now) jobs)
]

pub record JobMeta : Type 0 where
  pub id : ℕ
  pub queue : String
  pub status : JobStatus
  pub priority : ℤ
  pub attempts : ℕ
  pub max_attempts : ℕ
  pub run_at : ℕ
  pub locked_at : Option ℕ
  pub locked_by : Option String
  pub last_error : Option String
  pub idempotency_key : Option String
  pub org_id : Option ℕ
  pub actor_id : Option ℕ
  pub created_at : ℕ
  pub started_at : Option ℕ
  pub completed_at : Option ℕ
  pub payload : ℕ

pub record JobFilter : Type 0 where
  pub status : Option JobStatus
  pub org_id : Option ℕ
  pub limit : Option ℤ  -- i64

-- `filter.limit.unwrap_or(100).clamp(1, 1000)`
unfoldable pub limit_of : JobFilter → ℕ
limit_of filter =
    let limit : ℤ = elim filter.limit [ none ↦ pos 100 | some l ↦ l ] in
    if ltb_ℤ limit (pos 1) then 1 else if ltb_ℤ (pos 1000) limit then 1000 else pos_part limit

abbrev pub listed : String → JobFilter → Row → Bool
listed queue filter r =
    str_eq r.queue queue
    && ((elim filter.status [ none ↦ true | some s ↦ str_eq (as_str r.status) (as_str s) ])
        && (elim filter.org_id [
          | none ↦ true
          | some o ↦ elim r.org_id [ none ↦ false | some o' ↦ o' == o ]
        ]))

-- The attempts are i32 columns; those of a table are not negative, so `u32::try_from` keeps them.
unfoldable pub into_meta : Row → Result QueueError JobMeta
into_meta r = elim (from_str (as_str r.status)) [
  | err e ↦ err (decode_error e)
  | ok status ↦ ok (record {
    id = r.id;
    queue = r.queue;
    status = status;
    priority = r.priority;
    attempts = r.attempts;
    max_attempts = r.max_attempts;
    run_at = r.run_at;
    locked_at = r.locked_at;
    locked_by = r.locked_by;
    last_error = r.last_error;
    idempotency_key = r.idempotency_key;
    org_id = r.org_id;
    actor_id = r.actor_id;
    created_at = r.created_at;
    started_at = r.started_at;
    completed_at = r.completed_at;
    payload = r.payload;
  })
]

-- `rows.into_iter().map(JobRow::into_meta).collect()`
unfoldable pub into_metas : List Row → Result QueueError (List JobMeta)
into_metas [] = ok []
into_metas (r ∷ rows) = do meta ← into_meta r; metas ← into_metas rows; ok (meta ∷ metas)

-- ORDER BY created_at DESC LIMIT …
unfoldable pub list : List Row → String → JobFilter → Result QueueError (List JobMeta)
list jobs queue f = into_metas (
    take (limit_of f)
      (sort_by (λ a b. leb b.created_at a.created_at) (filter (listed queue f) jobs)))

unfoldable pub get : List Row → String → ℕ → Result QueueError JobMeta
get jobs queue id = elim (find (λ r. (r.id == id) && str_eq r.queue queue) jobs) [
  | none ↦ err (job_not_found id)
  | some r ↦ into_meta r
]
