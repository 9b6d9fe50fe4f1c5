-- ===== src/Cache/Swr/Calls.antt =====
-- crates/cache/src/swr.rs: what a single call does, whatever Valkey and the loader answer.
use kit.Prelude.{ℕ, ◌+◌, ◌≤◌, Bool, List, [], ◌∷◌, ◌≡◌, if◌then◌else◌}
use kit.Cache.Swr.{Swr, Answers, Effect, locks, loads, deletes_lock, sleeps}

module _ {T : Type 0} where
  abbrev pub load_count : Effect T → ℕ
  load_count loads = 1
  load_count e = 0

  abbrev pub sleep_count : Effect T → ℕ
  sleep_count sleeps = 1
  sleep_count e = 0

  abbrev pub lock_count : Effect T → ℕ
  lock_count locks = 1
  lock_count e = 0

  abbrev pub unlock_count : Effect T → ℕ
  unlock_count deletes_lock = 1
  unlock_count e = 0

  abbrev pub tally : (Effect T → ℕ) → List (Effect T) → ℕ
  tally count [] = 0
  tally count (e ∷ es) = count e + tally count es

  -- What a run may do, by whether it took the lock: at most one load, so many sleeps, and the lock
  -- given back exactly if it was taken.
  abbrev pub IsBounded : Bool → ℕ → List (Effect T) → Type 0
  IsBounded taken polls es =
      (tally load_count es ≤ 1)
      × (tally sleep_count es ≤ polls)
      × (tally unlock_count es ≡ (if taken then tally lock_count es else 0))

  module _ (swr : Swr) (a : Answers T) where
    -- What does not lock.
    abbrev IsFree : ℕ → List (Effect T) → Type 0
    IsFree polls es =
        (tally load_count es ≤ 1)
        × (tally sleep_count es ≤ polls)
        × (tally unlock_count es ≡ 0)
        × (tally lock_count es ≡ 0)
