-- ===== src/Queue/Worker/Invariant/Distinct.antt =====
-- crates/queue/src/schema.rs: the primary key and the unique index on (queue, idempotency_key).
use kit.Prelude.{
  ℕ, Bool, false, ◌&&◌, Option, none, some, String, List, [], ◌∷◌, ◌≡◌, refl, arith, str_eq, eq_iff,
  ◌==◌, any,
}
use kit.Queue.Table.{Row}
use kit.Prelude.Rows.{find}
use kit.Queue.Client.{EnqueueOptions, has_key, conflicting, new_row}

abbrev pub same_id : Row → Row → Bool
same_id r s = s.id == r.id

-- A NULL key is related to nothing.
abbrev pub same_key : Row → Row → Bool
same_key r s = elim r.idempotency_key [ none ↦ false | some k ↦ has_key r.queue k s ]

-- Two rows share a key in either direction.
shares_sym :
    (r : Row) (o : Option String) (queue key : String)
    → (elim o [ none ↦ false | some k ↦ str_eq queue r.queue && str_eq key k ])
      ≡ (elim o [ none ↦ false | some k ↦ str_eq r.queue queue && str_eq k key ])
shares_sym r none queue key = refl
shares_sym r (some k) queue key =
    ground (arith, eq_iff queue r.queue, eq_iff r.queue queue, eq_iff key k, eq_iff k key)

no_conflict_key :
    (jobs : List Row) (queue key : String)
    → find (has_key queue key) jobs ≡ none
    → any
        (λ x. elim x.idempotency_key [
          | none ↦ false
          | some k ↦ str_eq queue x.queue && str_eq key k
        ])
        jobs
      ≡ false
unfolding find any
no_conflict_key [] queue key h = refl
no_conflict_key (r ∷ rs) queue key h =
    ground (arith, shares_sym r r.idempotency_key queue key, no_conflict_key rs queue key)

any-none :
    (jobs : List Row)
    → any (λ x. elim x.idempotency_key [ none ↦ false | some k ↦ false ]) jobs ≡ false
unfolding any
any-none [] = refl
any-none (r ∷ rs) = ground (arith, any-none rs)

-- With no conflict on its key a new row shares no key.
pub no_conflict :
    (jobs : List Row) (now fresh : ℕ) (queue : String) (payload : ℕ) (opts : EnqueueOptions)
    → conflicting queue opts.idempotency_key jobs ≡ none
    → any (λ x. same_key x (new_row now fresh queue payload opts)) jobs ≡ false
unfolding conflicting new_row
no_conflict jobs now fresh queue payload opts h = by_key opts.idempotency_key h
  where
    by_key :
        (o : Option String)
        → conflicting queue o jobs ≡ none
        → any
            (λ x.
              same_key x (record (new_row now fresh queue payload opts) { idempotency_key = o }))
            jobs
          ≡ false
    by_key none e = any-none jobs
    by_key (some key) e = no_conflict_key jobs queue key e
