-- ===== src/Queue/Examples.antt =====
-- crates/queue: tests, and the theorems at concrete tables.
use kit.Prelude.{
  ℕ, ◌+◌, ◌*◌, ◌≤◌, true, false, Option, none, some, String, List, [], ◌∷◌, ◌≡◌, refl, arith,
  Result, ok, any, filter,
}
use kit.Prelude.Sort.{sort_by, insert_by}
use kit.Prelude.Int.{pos, negsuc}
use kit.Queue.Job.{as_str, backoff_seconds}
use kit.Queue.Table.{Row}
use kit.Prelude.Rows.{find}
use kit.Queue.Client.{
  EnqueueOptions, enqueue, new_row, conflicting, cancel, cancel_row, list, limit_of, into_metas,
  max_attempts_of,
}
use kit.Queue.Client.Idempotency.{enqueue_idempotent}
use kit.Queue.Worker.{
  Outcome, retriable, Job, eligible, claim_row, claim_one, failed_row, second, outcome_of,
  process_claimed,
}
use kit.Queue.Worker.Claiming.{with_id}
use kit.Queue.Worker.Invariant.Reach.{IsTable, Reach, start, next, enqueued, claims, Reach-IsTable}
use kit.Queue.Worker.Lifecycle.{cancelled_revived}

abbrev keyed : EnqueueOptions
keyed = record {
  run_at = none;
  priority = pos 0;
  max_attempts = some 2;
  idempotency_key = some "mail-7";
  org_id = none;
  actor_id = none;
}

abbrev urgent : EnqueueOptions
urgent = record keyed { priority = pos 5; idempotency_key = none }

abbrev low : EnqueueOptions
low = record urgent { priority = negsuc 0 }

abbrev jobs : List Row
jobs =
    (enqueue (enqueue (enqueue [] 10 1 "mail" 70 keyed).jobs 11 2 "mail" 71 urgent).jobs 12 3 "mail"
      72 low).jobs

enqueue_idempotent_example :
    let first = enqueue [] 10 1 "mail" 70 keyed in
    let second = enqueue first.jobs 20 2 "mail" 71 keyed in
    (id : ℕ) × (first.result ≡ ok id) × (second.result ≡ ok id) × (second.jobs ≡ first.jobs)
enqueue_idempotent_example =
    enqueue_idempotent [] 10 20 1 2 "mail" "mail-7" 70 71 keyed keyed refl refl

abbrev urgent_row : Row
urgent_row = new_row 11 2 "mail" 71 urgent

abbrev keyed_row : Row
keyed_row = new_row 10 1 "mail" 70 keyed

abbrev table_of : Option Row × List Row → List Row
table_of (c, t) = t

abbrev after_first : List Row
after_first = table_of (claim_one (λ r. false) 15 "mail" "w1" jobs)

abbrev after_second : List Row
after_second = table_of (claim_one (λ r. false) 16 "mail" "w2" after_first)

reached : Reach (claim_one (λ r. false) 15 "mail" "w1" (enqueue [] 10 1 "mail" 70 keyed).jobs).1
unfolding any
reached =
    next (next start (enqueued [] 10 1 "mail" 70 keyed refl))
      (claims (enqueue [] 10 1 "mail" 70 keyed).jobs (λ r. false) 15 "mail" "w1")

Reach-IsTable_example :
    IsTable (claim_one (λ r. false) 15 "mail" "w1" (enqueue [] 10 1 "mail" 70 keyed).jobs).1
Reach-IsTable_example = Reach-IsTable reached

abbrev decode : ℕ → Result String ℕ
decode n = ok n

abbrev always_fails : Job ℕ → Outcome
always_fails job = retriable "busy"

abbrev running_row : Row
running_row = claim_row 15 "w1" keyed_row

cancelled_revived_example :
    let cancelled_jobs = (cancel (running_row ∷ []) 20 "mail" running_row.id).1 in
    let r' : Row =
      failed_row "busy"
        (30 + backoff_seconds running_row.attempts * second)
        (cancel_row 20 running_row) in
    (find (with_id running_row.id) cancelled_jobs ≡ some (cancel_row 20 running_row))
    × (find
          (with_id running_row.id)
          (process_claimed decode always_fails 30 "mail" running_row cancelled_jobs)
        ≡ some r')
    × ((later' : ℕ) → r'.run_at ≤ later' → eligible (λ s. false) later' "mail" r' ≡ true)
unfolding find new_row outcome_of max_attempts_of
cancelled_revived_example =
    cancelled_revived decode always_fails (running_row ∷ []) 20 30 "mail" "busy" running_row refl
      refl refl (omega arith) refl

list_test :
    list jobs "mail" (record { status = none; org_id = none; limit = some (pos 1) })
    ≡ into_metas (new_row 12 3 "mail" 72 low ∷ [])
unfolding list limit_of filter as_str sort_by insert_by enqueue conflicting find new_row
    max_attempts_of
list_test = refl
