-- ===== src/Queue/Client/Idempotency.antt =====
-- crates/queue/src/queue.rs: `enqueue` under an idempotency key, and what `cancel` reaches.
use text.Mathlib.TextPositions.{eq_refl}
use kit.Prelude.{
  ℕ, none, some, String, List, [], ◌∷◌, ◌++◌, ◌≡◌, ap, ◌∙◌, arith, ok, Option-cases, inl, inr,
}
use kit.Queue.Table.{Row}
use kit.Prelude.Rows.{find}
use kit.Prelude.Rows.{find-append}
use kit.Queue.Client.{EnqueueOptions, has_key, conflicting, new_row, enqueue}

-- Without a conflict, the row is found under its key afterwards.
find_new :
    (jobs : List Row) (now fresh : ℕ) (queue key : String) (payload : ℕ) (opts : EnqueueOptions)
    → opts.idempotency_key ≡ some key
    → find (has_key queue key) jobs ≡ none
    → find (has_key queue key) (jobs ++ new_row now fresh queue payload opts ∷ [])
      ≡ some (new_row now fresh queue payload opts)
unfolding find new_row
find_new jobs now fresh queue key payload opts e absent =
    find-append (has_key queue key) jobs (new_row now fresh queue payload opts ∷ [])
    ∙ ground (arith, eq_refl queue, eq_refl key)

-- A key that is taken: nothing is written and the stored job's id comes back.
enqueue_taken :
    (jobs : List Row) (now fresh : ℕ) (queue key : String) (payload : ℕ) (opts : EnqueueOptions)
    (r : Row)
    → opts.idempotency_key ≡ some key
    → find (has_key queue key) jobs ≡ some r
    → ((enqueue jobs now fresh queue payload opts).jobs ≡ jobs)
      × ((enqueue jobs now fresh queue payload opts).result ≡ ok r.id)
unfolding enqueue conflicting
enqueue_taken jobs now fresh queue key payload opts r e taken = (ground arith, ground arith)

enqueue_free :
    (jobs : List Row) (now fresh : ℕ) (queue key : String) (payload : ℕ) (opts : EnqueueOptions)
    → opts.idempotency_key ≡ some key
    → find (has_key queue key) jobs ≡ none
    → ((enqueue jobs now fresh queue payload opts).jobs
        ≡ jobs ++ new_row now fresh queue payload opts ∷ [])
      × ((enqueue jobs now fresh queue payload opts).result ≡ ok fresh)
unfolding enqueue conflicting
enqueue_free jobs now fresh queue key payload opts e free = (ground arith, ground arith)

-- After an enqueue under a key, some row holds the key, and its id is what was returned.
enqueue_holds :
    (jobs : List Row) (now fresh : ℕ) (queue key : String) (payload : ℕ) (opts : EnqueueOptions)
    → opts.idempotency_key ≡ some key
    → (r : Row) × (find (has_key queue key) (enqueue jobs now fresh queue payload opts).jobs
        ≡ some r)
      × ((enqueue jobs now fresh queue payload opts).result ≡ ok r.id)
enqueue_holds jobs now fresh queue key payload opts e =
    elim (Option-cases (find (has_key queue key) jobs)) [
      | inl free ↦
          let (table, result) = enqueue_free jobs now fresh queue key payload opts e free in
          (
            new_row now fresh queue payload opts,
            ap (find (has_key queue key)) table
                ∙ find_new jobs now fresh queue key payload opts e free,
            unfold new_row in result,
          )
      | inr (r, taken) ↦
          let (table, result) = enqueue_taken jobs now fresh queue key payload opts r e taken in
          (r, ap (find (has_key queue key)) table ∙ taken, result)
    ]

-- Enqueueing again under the same key, with any payload and options, gives the id of the first
-- enqueue and leaves the table as it was; neither call is an error.
pub enqueue_idempotent :
    (jobs : List Row) (now now' fresh fresh' : ℕ) (queue key : String) (payload payload' : ℕ)
    (opts opts' : EnqueueOptions)
    → opts.idempotency_key ≡ some key
    → opts'.idempotency_key ≡ some key
    → let first = enqueue jobs now fresh queue payload opts in
      let second = enqueue first.jobs now' fresh' queue payload' opts' in
      (id : ℕ) × (first.result ≡ ok id) × (second.result ≡ ok id) × (second.jobs ≡ first.jobs)
enqueue_idempotent jobs now now' fresh fresh' queue key payload payload' opts opts' e e' =
    let first = enqueue jobs now fresh queue payload opts in
    let (r, held, result) = enqueue_holds jobs now fresh queue key payload opts e in
    let (table, again) = enqueue_taken first.jobs now' fresh' queue key payload' opts' r e' held in
    (r.id, result, again, table)
