-- ===== src/Cache/Swr/Lock.antt =====
-- crates/cache/src/swr.rs: the lock in Valkey between callers that load, which carries no mark of its
-- holder. Times are in milliseconds.
use kit.Prelude.{ℕ, ◌+◌, ◌≤◌, ◌<◌, Option, none, some, List, [], ◌∷◌, ◌++◌, ◌≡◌, ◌⊎◌, refl, arith}
use kit.Prelude.Rows.{AllRows}

-- When the lock runs out, if it is set, and when each caller that loads under it took it.
pub record Locks : Type 0 where
  pub expires : Option ℕ
  pub loading : List ℕ

-- A lock that is not set, or has run out.
abbrev pub IsFree : Option ℕ → ℕ → Type 0
IsFree none now = Unit
IsFree (some t) now = t ≤ now

-- Moments at which a caller may take the lock, in a state.
abbrev pub Allowed : Type 1
Allowed = Locks → ℕ → Type 0

abbrev pub AnyTime : Allowed
AnyTime l now = Unit

module _ (lock_ttl : ℕ) where
  -- SET NX PX succeeds on a lock that is free, and a caller that is done, with a value or without,
  -- deletes the lock, whosever it is.
  pub data Step (allowed : Allowed) : Locks → Locks → Type 0 where
    takes :
        (l : Locks) (now : ℕ)
        → IsFree l.expires now
        → allowed l now
        → Step allowed l
            (record { expires = some (now + lock_ttl); loading = l.loading ++ now ∷ [] })
    finishes :
        (l : Locks) (before after : List ℕ) (since : ℕ)
        → l.loading ≡ before ++ since ∷ after
        → Step allowed l (record { expires = none; loading = before ++ after })

  pub data Reach (allowed : Allowed) : Locks → Type 0 where
    start : Reach allowed (record { expires = none; loading = [] })
    next : {l l' : Locks} → Reach allowed l → Step allowed l l' → Reach allowed l'

  -- The callers that load took the lock less than its life ago.
  abbrev pub Timely : Allowed
  Timely l now = AllRows (λ since. now < since + lock_ttl) l.loading

  abbrev Single : Locks → Type 0
  Single l =
      (l.loading ≡ [])
      ⊎ ((since : ℕ) × (l.loading ≡ since ∷ []) × (l.expires ≡ some (since + lock_ttl)))

  -- The lock does not keep loads apart once one has overrun it: at any moment, one life of the lock
  -- after a caller took it that still loads, two more callers can take it and both load, since the
  -- end of the first caller's load deletes the second one's lock.
  pub single_flight_broken :
      (now : ℕ)
      → Reach AnyTime (record {
        expires = some (now + lock_ttl + lock_ttl);
        loading = (now + lock_ttl) ∷ (now + lock_ttl) ∷ [];
      })
  single_flight_broken now =
      let empty : Locks = record { expires = none; loading = [] } in
      let first : Locks = record { expires = some (now + lock_ttl); loading = now ∷ [] } in
      let second : Locks = record {
        expires = some (now + lock_ttl + lock_ttl);
        loading = now ∷ (now + lock_ttl) ∷ [];
      } in
      let deleted : Locks = record { expires = none; loading = (now + lock_ttl) ∷ [] } in
      let r1 : Reach AnyTime first = next start (takes empty now tt tt) in
      let r2 : Reach AnyTime second = next r1 (takes first (now + lock_ttl) (omega arith) tt) in
      let r3 : Reach AnyTime deleted =
        next r2 (finishes second [] ((now + lock_ttl) ∷ []) now refl) in
      next r3 (takes deleted (now + lock_ttl) tt tt)
