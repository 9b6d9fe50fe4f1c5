-- ===== src/Queue/Worker/Claiming.antt =====
-- crates/queue/src/worker.rs: what `claim_one` claims.
use mathlib.Core.Option
use mathlib.Core.Path.{subst}
use kit.Prelude.{
  ℕ, Bool, true, false, Option, none, some, String, List, [], ◌∷◌, ◌≡◌, ◌≢◌, inl, inr, refl, sym,
  arith, ◌==◌, if◌then◌else◌, Option-cases, Bool-cases, ◌∙◌,
}
use kit.Queue.Job.{running}
use kit.Queue.Table.{Row}
use kit.Prelude.Rows.{update_where, find}
use kit.Prelude.Rows.{AllRows, Among}
use kit.Queue.Worker.{eligible, precedes, pick, claim_row, claim_one}

-- `precedes` is a strict weak order.
precedes_asym : (a b : Row) → precedes a b ≡ true → precedes b a ≡ false
unfolding precedes
precedes_asym a b h = ground arith

precedes_neg_trans :
    (a b c : Row) → precedes a b ≡ false → precedes b c ≡ false → precedes a c ≡ false
unfolding precedes
precedes_neg_trans a b c h k = ground arith

module _ (p : Row → Bool) where
  -- No row that passes comes before `r`.
  abbrev pub IsFirst : Row → List Row → Type 0
  IsFirst r jobs = AllRows (λ s. p s ≡ true → precedes s r ≡ false) jobs

  IsFirst-later :
      (b r : Row) (jobs : List Row) → IsFirst b jobs → precedes b r ≡ false → IsFirst r jobs
  IsFirst-later b r [] h k = tt
  IsFirst-later b r (s ∷ rs) h k =
      (λ ps. precedes_neg_trans s b r (h.0 ps) k, IsFirst-later b r rs h.1 k)

  pub record Picked (r : Row) (jobs : List Row) : Type 0 where
    pub passes : p r ≡ true
    pub stands : Among r jobs
    pub first : IsFirst r jobs

  pub pick-none : (jobs : List Row) → pick p jobs ≡ none → AllRows (λ s. p s ≡ false) jobs
  unfolding pick
  pick-none [] h = tt
  pick-none (r ∷ rs) h = (ground arith, pick-none rs (ground arith))

  none-IsFirst : (r : Row) (jobs : List Row) → AllRows (λ s. p s ≡ false) jobs → IsFirst r jobs
  none-IsFirst r [] h = tt
  none-IsFirst r (s ∷ rs) h = (λ ps. cc (h.0), none-IsFirst r rs h.1)

  precedes_irrefl : (r : Row) → precedes r r ≡ false
  unfolding precedes
  precedes_irrefl r = ground arith

  Picked-head : (s : Row) (rs : List Row) → p s ≡ true → IsFirst s rs → Picked s (s ∷ rs)
  Picked-head s rs h f = record {
    passes = h;
    stands = inl refl;
    first = (λ ps. precedes_irrefl s, f);
  }

  Picked-tail :
      (s r : Row) (rs : List Row)
      → (p s ≡ true → precedes s r ≡ false)
      → Picked r rs
      → Picked r (s ∷ rs)
  Picked-tail s r rs h k = record { passes = k.passes; stands = inr k.stands; first = (h, k.first) }

  pick_at :
      (s : Row) (rs : List Row)
      → p s ≡ true
      → pick p (s ∷ rs)
        ≡ elim (pick p rs) [ none ↦ some s | some b ↦ if precedes b s then some b else some s ]
  unfolding pick
  pick_at s rs h = ground arith

  pick_past : (s : Row) (rs : List Row) → p s ≡ false → pick p (s ∷ rs) ≡ pick p rs
  unfolding pick
  pick_past s rs h = ground arith

  pub pick-Picked : (jobs : List Row) (r : Row) → pick p jobs ≡ some r → Picked r jobs
  pick-Picked [] r h = unfold pick in absurd (cc)
  pick-Picked (s ∷ rs) r h = elim (Bool-cases (p s)) [
    | inr f ↦ Picked-tail s r rs (λ t. cc) (pick-Picked rs r (sym (pick_past s rs f) ∙ h))
    | inl t ↦ elim (Option-cases (pick p rs)) [
      | inl e ↦
          let same : s ≡ r = ground (arith, pick_at s rs t) in
          subst (λ x. Picked x (s ∷ rs)) same
            (Picked-head s rs t (none-IsFirst s rs (pick-none rs e)))
      | inr (b, e) ↦
          let best = pick-Picked rs b e in
          elim (Bool-cases (precedes b s)) [
            | inl lt ↦
                let same : b ≡ r = ground (arith, pick_at s rs t) in
                subst (λ x. Picked x (s ∷ rs)) same
                  (Picked-tail s b rs (λ ps. precedes_asym b s lt) best)
            | inr ge ↦
                let same : s ≡ r = ground (arith, pick_at s rs t) in
                subst (λ x. Picked x (s ∷ rs)) same
                  (Picked-head s rs t (IsFirst-later b s rs best.first ge))
          ]
    ]
  ]

abbrev pub with_id : ℕ → Row → Bool
with_id k r = r.id == k

-- What a claim may give: a claimed row comes from the eligible row that ORDER BY puts first, and the
-- rows under other ids stay; nothing comes only from a table without an eligible row, which stays.
abbrev pub Claims : (Row → Bool) → ℕ → String → String → List Row → Option Row × List Row → Type 0
Claims skip now queue worker_id jobs (none, jobs') =
    (jobs' ≡ jobs) × AllRows (λ s. eligible skip now queue s ≡ false) jobs
Claims skip now queue worker_id jobs (some c, jobs') =
    (r : Row) × Picked (eligible skip now queue) r jobs
    × (c ≡ claim_row now worker_id r)
    × ((k : ℕ) → k ≢ r.id → find (with_id k) jobs' ≡ find (with_id k) jobs)

-- A table in which every row of one id is running.
abbrev IsRunning : ℕ → List Row → Type 0
IsRunning k jobs = AllRows (λ s. s.id ≡ k → s.status ≡ running) jobs

pub claim_one_inv :
    (skip : Row → Bool) (now : ℕ) (queue w : String) (jobs : List Row) {c : Row} {jobs' : List Row}
    → claim_one skip now queue w jobs ≡ (some c, jobs')
    → (r : Row) × Picked (eligible skip now queue) r jobs
      × (c ≡ claim_row now w r)
      × (jobs' ≡ update_where (with_id r.id) (claim_row now w) jobs)
unfolding claim_one
claim_one_inv skip now queue w jobs h = elim (Option-cases (pick (eligible skip now queue) jobs)) [
  | inl e ↦ absurd (cc (h, e))
  | inr (r, e) ↦ (r, pick-Picked (eligible skip now queue) jobs r e, ground arith, ground arith)
]
