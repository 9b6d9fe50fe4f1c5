-- ===== src/Queue/Worker/Lifecycle.antt =====
-- crates/queue: what later statements make of a cancelled or an abandoned job.
use mathlib.Core.Option
use kit.Prelude.{
  ℕ, ◌+◌, ◌-◌, ◌*◌, ◌≤◌, ◌<◌, Bool, true, false, none, some, String, List, ◌≡◌, ◌≢◌, refl, ap, ◌∙◌,
  arith, str_eq, if◌then◌else◌, Result, Option-cases, inl, inr,
}
use kit.Queue.Job.{queued, running, backoff_seconds, is_terminal}
use kit.Queue.Table.{Row}
use kit.Prelude.Rows.{update_where, find}
use kit.Prelude.Rows.{find-update_where, find-passes, find_also}
use kit.Queue.Client.{cancel, cancel_row, cancellable}
use kit.Queue.Worker.{
  Outcome, retriable, Job, eligible, failed_row, mark_failed_for_retry, retry_or_bury, second,
  settle, outcome_of, process_claimed, is_stale, release_row, sweep,
}
use kit.Queue.Worker.Claiming.{with_id}

cancel_writes :
    (jobs : List Row) (now : ℕ) (queue : String) (id : ℕ)
    → find (cancellable id queue) jobs ≢ none
    → (cancel jobs now queue id).1 ≡ update_where (cancellable id queue) (cancel_row now) jobs
unfolding cancel
cancel_writes jobs now queue id h = elim (Option-cases (find (cancellable id queue) jobs)) [
  | inl e ↦ absurd (h e)
  | inr (r, e) ↦ ground (arith, e)
]

is_cancellable :
    (jobs : List Row) (queue : String) (r : Row)
    → str_eq r.queue queue ≡ true
    → r.status ≡ running
    → cancellable r.id queue r ≡ true
unfolding is_terminal
is_cancellable jobs queue r q run = ground arith

cancelled_at :
    (jobs : List Row) (now : ℕ) (queue : String) (r : Row)
    → find (with_id r.id) jobs ≡ some r
    → str_eq r.queue queue ≡ true
    → r.status ≡ running
    → find (with_id r.id) (cancel jobs now queue r.id).1 ≡ some (cancel_row now r)
cancelled_at jobs now queue r found q run =
    let p = cancellable r.id queue in
    let passes = is_cancellable jobs queue r q run in
    ap (find (with_id r.id))
      (cancel_writes jobs now queue r.id (find_also (with_id r.id) p jobs r found passes))
    ∙ find-update_where (with_id r.id) p (cancel_row now) jobs (λ s. refl)
    ∙ ap (Option.map (λ s. if p s then cancel_row now s else s)) found
    ∙ ap (λ b. some (if b then cancel_row now r else r)) passes

failed_at :
    (jobs : List Row) (now : ℕ) (msg : String) (c r : Row)
    → find (with_id c.id) jobs ≡ some r
    → c.attempts < c.max_attempts
    → find (with_id c.id) (settle now c (retriable msg) jobs)
      ≡ some (failed_row msg (now + backoff_seconds c.attempts * second) r)
unfolding settle retry_or_bury mark_failed_for_retry
failed_at jobs now msg c r found left =
    let f = failed_row msg (now + backoff_seconds c.attempts * second) in
    ground (
      arith,
      find-update_where (with_id c.id) (with_id c.id) f jobs (λ s. refl),
      find-passes (with_id c.id) jobs r found,
    )

-- Cancelling does not hold against the worker that runs the job: if its handler then fails with a
-- retriable error and attempts are left, the cancelled row is `failed` again, with a new time to
-- run, and so is claimable.
pub cancelled_revived :
    {P : Type 0} (decode : ℕ → Result String P) (handle : Job P → Outcome) (jobs : List Row)
    (now later : ℕ) (queue msg : String) (r : Row)
    → find (with_id r.id) jobs ≡ some r
    → str_eq r.queue queue ≡ true
    → r.status ≡ running
    → r.attempts < r.max_attempts
    → outcome_of handle queue r (decode r.payload) ≡ retriable msg
    → let cancelled_jobs = (cancel jobs now queue r.id).1 in
      let r' : Row =
        failed_row msg (later + backoff_seconds r.attempts * second) (cancel_row now r) in
      (find (with_id r.id) cancelled_jobs ≡ some (cancel_row now r))
      × (find (with_id r.id) (process_claimed decode handle later queue r cancelled_jobs) ≡ some r')
      × ((later' : ℕ) → r'.run_at ≤ later' → eligible (λ s. false) later' queue r' ≡ true)
unfolding process_claimed eligible
cancelled_revived decode handle jobs now later queue msg r found q run left outcome =
    let was_cancelled = cancelled_at jobs now queue r found q run in
    let cancelled_jobs = (cancel jobs now queue r.id).1 in
    (
      was_cancelled,
      ap (λ o. find (with_id r.id) (settle later r o cancelled_jobs)) outcome
          ∙ failed_at cancelled_jobs later msg r (cancel_row now r) was_cancelled left,
      λ later' due. ground arith,
    )

-- A job whose worker dies in its last attempt is never run, buried or claimed again: the sweep
-- queues it, and no claim of any worker at any time takes a row without attempts left.
pub swept_stuck :
    (jobs : List Row) (now stale_secs : ℕ) (r : Row)
    → find (with_id r.id) jobs ≡ some r
    → is_stale (now - stale_secs * second) r ≡ true
    → r.attempts ≡ r.max_attempts
    → (r' : Row) × (find (with_id r.id) (sweep now stale_secs jobs) ≡ some r')
      × (r'.status ≡ queued)
      × ((skip : Row → Bool) (later : ℕ) (queue : String) → eligible skip later queue r' ≡ false)
unfolding sweep eligible
swept_stuck jobs now stale_secs r found stale spent = (
  release_row r,
  find-update_where (with_id r.id) (is_stale (now - stale_secs * second)) release_row jobs
        (λ s. refl)
      ∙ ap (Option.map (λ s. if is_stale (now - stale_secs * second) s then release_row s else s))
          found
      ∙ ground (arith, stale),
  refl,
  λ skip later queue. ground arith,
)
