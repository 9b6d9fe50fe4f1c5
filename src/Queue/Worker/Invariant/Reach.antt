-- ===== src/Queue/Worker/Invariant/Reach.antt =====
-- crates/queue: every table that enqueues, cancels, claims, results and sweeps can lead to, in any
-- order and by any number of workers.
use kit.Prelude.{
  ℕ, Bool, true, false, Option, none, some, String, List, [], ◌∷◌, ◌++◌, ◌≡◌, refl, sym, arith,
  ◌==◌, ◌-◌, ◌+◌, ◌*◌, leb, if◌then◌else◌, Result, ok, err, any, Option-cases, inl, inr,
}
use mathlib.Core.Path.{subst}
use kit.Queue.Job.{backoff_seconds}
use kit.Queue.Table.{Row}
use kit.Prelude.Rows.{update_where, find}
use kit.Prelude.Rows.{AllRows, AllRows-update_where, AllRows-append, AllRows-at}
use kit.Queue.Client.{
  QueueError, job_not_found, EnqueueOptions, conflicting, new_row, enqueue, cancel, cancel_row,
  cancellable,
}
use kit.Queue.Worker.{
  Outcome, handled, permanent, retriable, Job, eligible, pick, claim_row, claim_one, done_row,
  dead_row, failed_row, mark_done, mark_dead, mark_failed_for_retry, retry_or_bury, settle,
  outcome_of, second, process_claimed, is_stale, release_row, sweep,
}
use kit.Queue.Worker.Claiming.{with_id, pick-Picked}
use kit.Queue.Worker.Invariant.{
  IsRow, new_row-IsRow, cancel_row-IsRow, done_row-IsRow, dead_row-IsRow, failed_row-IsRow,
  release_row-IsRow, claim_row-IsRow,
}
use kit.Queue.Worker.Invariant.Distinct.{same_id, same_key, no_conflict}
use kit.Prelude.Rows.Distinct.{
  DistinctBy, DistinctBy-update_where, DistinctBy-append, AllRows-at_key,
}

-- What holds of the table: each row has its shape, no id stands twice, and no two rows of a queue
-- share an idempotency key.
pub record IsTable (jobs : List Row) : Type 0 where
  pub rows : AllRows IsRow jobs
  pub ids : DistinctBy same_id jobs
  pub keys : DistinctBy same_key jobs

-- One statement or handler result. A worker may finish a job of which it holds any copy.
pub data Step : List Row → List Row → Type 1 where
  enqueued :
      (jobs : List Row) (now fresh : ℕ) (queue : String) (payload : ℕ) (opts : EnqueueOptions)
      → any (with_id fresh) jobs ≡ false
      → Step jobs (enqueue jobs now fresh queue payload opts).jobs
  cancels :
      (jobs : List Row) (now : ℕ) (queue : String) (id : ℕ) → Step jobs (cancel jobs now queue id).1
  claims :
      (jobs : List Row) (skip : Row → Bool) (now : ℕ) (queue worker_id : String)
      → Step jobs (claim_one skip now queue worker_id jobs).1
  finishes :
      (jobs : List Row) {P : Type 0} (decode : ℕ → Result String P) (handle : Job P → Outcome)
      (now : ℕ) (queue : String) (claimed : Row)
      → Step jobs (process_claimed decode handle now queue claimed jobs)
  sweeps : (jobs : List Row) (now stale_secs : ℕ) → Step jobs (sweep now stale_secs jobs)

pub data Reach : List Row → Type 1 where
  start : Reach []
  next : {jobs jobs' : List Row} → Reach jobs → Step jobs jobs' → Reach jobs'

-- An update that keeps the shape of the rows that it changes, and no row's id, queue or key.
update-IsTable :
    (p : Row → Bool) (f : Row → Row) (jobs : List Row)
    → ((r : Row) → p r ≡ true → IsRow r → IsRow (f r))
    → ((r s : Row) → same_id (f r) s ≡ same_id r s)
    → ((r s : Row) → same_id r (f s) ≡ same_id r s)
    → ((r s : Row) → same_key (f r) s ≡ same_key r s)
    → ((r s : Row) → same_key r (f s) ≡ same_key r s)
    → IsTable jobs
    → IsTable (update_where p f jobs)
update-IsTable p f jobs shape a b c d h = record {
  rows = AllRows-update_where IsRow p f jobs shape h.rows;
  ids = DistinctBy-update_where same_id p f jobs a b h.ids;
  keys = DistinctBy-update_where same_key p f jobs c d h.keys;
}

mark_done-IsTable : (now id : ℕ) (jobs : List Row) → IsTable jobs → IsTable (mark_done now id jobs)
unfolding mark_done
mark_done-IsTable now id jobs =
    update-IsTable (λ j. j.id == id) (done_row now) jobs (λ r _. done_row-IsRow now r) (λ r s. refl)
      (λ r s. refl) (λ r s. refl) (λ r s. refl)

mark_dead-IsTable :
    (now id : ℕ) (msg : String) (jobs : List Row)
    → IsTable jobs
    → IsTable (mark_dead now id msg jobs)
unfolding mark_dead
mark_dead-IsTable now id msg jobs =
    update-IsTable (λ j. j.id == id) (dead_row now msg) jobs (λ r _. dead_row-IsRow now msg r)
      (λ r s. refl) (λ r s. refl) (λ r s. refl) (λ r s. refl)

mark_failed_for_retry-IsTable :
    (id : ℕ) (msg : String) (at : ℕ) (jobs : List Row)
    → IsTable jobs
    → IsTable (mark_failed_for_retry id msg at jobs)
unfolding mark_failed_for_retry
mark_failed_for_retry-IsTable id msg at jobs =
    update-IsTable (λ j. j.id == id) (failed_row msg at) jobs (λ r _. failed_row-IsRow msg at r)
      (λ r s. refl) (λ r s. refl) (λ r s. refl) (λ r s. refl)

retry_or_bury-IsTable :
    (now id attempts max : ℕ) (msg : String) (jobs : List Row)
    → IsTable jobs
    → IsTable (retry_or_bury now id attempts max msg jobs)
unfolding retry_or_bury
retry_or_bury-IsTable now id attempts max msg jobs h =
    if_both (leb max attempts) (mark_dead-IsTable now id msg jobs h)
      (mark_failed_for_retry-IsTable id msg (now + backoff_seconds attempts * second) jobs h)
  where
    if_both : (b : Bool) {x y : List Row} → IsTable x → IsTable y → IsTable (if b then x else y)
    if_both true h k = h
    if_both false h k = k

settle-IsTable :
    (now : ℕ) (claimed : Row) (o : Outcome) (jobs : List Row)
    → IsTable jobs
    → IsTable (settle now claimed o jobs)
unfolding settle
settle-IsTable now claimed handled jobs h = mark_done-IsTable now claimed.id jobs h
settle-IsTable now claimed (permanent msg) jobs h = mark_dead-IsTable now claimed.id msg jobs h
settle-IsTable now claimed (retriable msg) jobs h =
    retry_or_bury-IsTable now claimed.id claimed.attempts claimed.max_attempts msg jobs h

sweep-IsTable : (now stale : ℕ) (jobs : List Row) → IsTable jobs → IsTable (sweep now stale jobs)
unfolding sweep
sweep-IsTable now stale jobs =
    update-IsTable (is_stale (now - stale * second)) release_row jobs
      (release_row-IsRow (now - stale * second)) (λ r s. refl) (λ r s. refl) (λ r s. refl)
      (λ r s. refl)

cancel-IsTable :
    (jobs : List Row) (now : ℕ) (queue : String) (id : ℕ)
    → IsTable jobs
    → IsTable (cancel jobs now queue id).1
unfolding cancel
cancel-IsTable jobs now queue id h = by_row (find (cancellable id queue) jobs)
  where
    by_row :
        (o : Option Row)
        → IsTable
            (elim o as (λ x. Result QueueError (Unit {0}) × List Row) [
              | none ↦ (err (job_not_found id), jobs)
              | some r ↦ (ok tt, update_where (cancellable id queue) (cancel_row now) jobs)
            ]).1
    by_row none = h
    by_row (some r) =
        update-IsTable (cancellable id queue) (cancel_row now) jobs (λ r _. cancel_row-IsRow now r)
          (λ r s. refl) (λ r s. refl) (λ r s. refl) (λ r s. refl) h

enqueue_inserts :
    (jobs : List Row) (now fresh : ℕ) (queue : String) (payload : ℕ) (opts : EnqueueOptions)
    → conflicting queue opts.idempotency_key jobs ≡ none
    → (enqueue jobs now fresh queue payload opts).jobs
      ≡ jobs ++ new_row now fresh queue payload opts ∷ []
unfolding enqueue
enqueue_inserts jobs now fresh queue payload opts free = ground arith

-- On a conflict the table stays, whatever is then looked up.
enqueue_conflict :
    (jobs : List Row) (now fresh : ℕ) (queue : String) (payload : ℕ) (opts : EnqueueOptions)
    (r : Row)
    → conflicting queue opts.idempotency_key jobs ≡ some r
    → (enqueue jobs now fresh queue payload opts).jobs ≡ jobs
unfolding enqueue
enqueue_conflict jobs now fresh queue payload opts r taken = ground arith

not_used :
    (jobs : List Row) (now fresh : ℕ) (queue : String) (payload : ℕ) (opts : EnqueueOptions)
    → any (with_id fresh) jobs ≡ false
    → any (λ x. same_id x (new_row now fresh queue payload opts)) jobs ≡ false
unfolding new_row any
not_used [] now fresh queue payload opts h = refl
not_used (r ∷ rs) now fresh queue payload opts h =
    ground (arith, not_used rs now fresh queue payload opts)

enqueue-IsTable :
    (jobs : List Row) (now fresh : ℕ) (queue : String) (payload : ℕ) (opts : EnqueueOptions)
    → any (with_id fresh) jobs ≡ false
    → IsTable jobs
    → IsTable (enqueue jobs now fresh queue payload opts).jobs
enqueue-IsTable jobs now fresh queue payload opts unused h =
    elim (Option-cases (conflicting queue opts.idempotency_key jobs)) [
      | inl free ↦
          subst IsTable (sym (enqueue_inserts jobs now fresh queue payload opts free)) (record {
            rows =
                AllRows-append IsRow jobs _ h.rows (new_row-IsRow now fresh queue payload opts, tt);
            ids =
                DistinctBy-append same_id jobs _ (not_used jobs now fresh queue payload opts unused)
                  h.ids;
            keys =
                DistinctBy-append same_key jobs _
                  (no_conflict jobs now fresh queue payload opts free) h.keys;
          })
      | inr (r, taken) ↦
          subst IsTable (sym (enqueue_conflict jobs now fresh queue payload opts r taken)) h
    ]

claim_one-IsTable :
    (skip : Row → Bool) (now : ℕ) (queue w : String) (jobs : List Row)
    → IsTable jobs
    → IsTable (claim_one skip now queue w jobs).1
unfolding claim_one
claim_one-IsTable skip now queue w jobs h = by_pick (pick (eligible skip now queue) jobs) refl
  where
    by_pick :
        (o : Option Row)
        → pick (eligible skip now queue) jobs ≡ o
        → IsTable
            (elim o as (λ x. Option Row × List Row) [
              | none ↦ (none, jobs)
              | some r ↦ (
                some (claim_row now w r),
                update_where (λ j. j.id == r.id) (claim_row now w) jobs,
              )
            ]).1
    by_pick none e = h
    by_pick (some r) e =
        let picked = pick-Picked (eligible skip now queue) jobs r e in
        let row = AllRows-at IsRow jobs r h.rows picked.stands in
        record {
          rows =
              AllRows-at_key (λ s. s.id) IsRow (claim_row now w) r jobs h.ids picked.stands
                (claim_row-IsRow skip now queue w r picked.passes row) h.rows;
          ids =
              DistinctBy-update_where same_id (λ j. j.id == r.id) (claim_row now w) jobs
                (λ r s. refl) (λ r s. refl) h.ids;
          keys =
              DistinctBy-update_where same_key (λ j. j.id == r.id) (claim_row now w) jobs
                (λ r s. refl) (λ r s. refl) h.keys;
        }

Step-IsTable : {jobs jobs' : List Row} → Step jobs jobs' → IsTable jobs → IsTable jobs'
Step-IsTable (enqueued jobs now fresh queue payload opts unused) h =
    enqueue-IsTable jobs now fresh queue payload opts unused h
Step-IsTable (cancels jobs now queue id) h = cancel-IsTable jobs now queue id h
Step-IsTable (claims jobs skip now queue w) h = claim_one-IsTable skip now queue w jobs h
Step-IsTable (finishes jobs decode handle now queue claimed) h =
    unfold process_claimed in
    settle-IsTable now claimed (outcome_of handle queue claimed (decode claimed.payload)) jobs h
Step-IsTable (sweeps jobs now stale) h = sweep-IsTable now stale jobs h

-- In every table that can be reached each row has its shape: the attempts within the maximum, a
-- running row locked and started, a row that is neither running nor cancelled unlocked, a terminal
-- row with its time of completion. No id stands twice, and no two rows of a queue share an
-- idempotency key.
pub Reach-IsTable : {jobs : List Row} → Reach jobs → IsTable jobs
Reach-IsTable start = record { rows = tt; ids = tt; keys = tt }
Reach-IsTable (next r step) = Step-IsTable step (Reach-IsTable r)
