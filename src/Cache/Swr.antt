-- ===== src/Cache/Swr.antt =====
-- crates/cache/src/swr.rs: `get_or_load` and its refresh in the background. What Valkey, the clock and
-- the loader answer to one call is an argument; a call gives its result and what it did, in order.
pub mod Calls
pub mod Lock
use kit.Prelude.{
  ℕ, zero, suc, ◌+◌, ◌-◌, ◌*◌, ◌/◌, ◌≤◌, Bool, true, false, Option, none, some, String, List, [],
  ◌∷◌, ◌++◌, ltb, leb, if◌then◌else◌, Result, ok, err,
}

-- Any error of the loader or of Valkey.
pub data Failure : Type 0 where
  failure : Failure

pub record Swr : Type 0 where
  pub fresh_ttl : ℕ  -- in nanoseconds, as the next one
  pub lock_ttl : ℕ
  pub bypass : Bool

pub record Envelope (T : Type 0) : Type 0 where
  pub ts_ms : ℕ
  pub payload : T

-- `poll i` is the answer to the GET after the i-th sleep.
pub record Answers (T : Type 0) : Type 0 where
  pub get : Result Failure (Option String)
  pub get_now_ms : ℕ
  pub set_lock : Result Failure Bool  -- whether the value that SET NX returns is not null
  pub load : Result Failure T
  pub poll : ℕ → Result Failure (Option String)
  pub poll_now_ms : ℕ → ℕ
  pub from_str : String → Option (Envelope T)

pub data Effect (T : Type 0) : Type 0 where
  gets locks loads deletes_lock sleeps spawns_refresh : Effect T
  stores : T → Effect T

pub record Done (T : Type 0) : Type 0 where
  pub result : Result Failure T
  pub effects : List (Effect T)

-- Whether SET NX took the lock.
abbrev pub is_taken : Result Failure Bool → Bool
is_taken (ok taken) = taken
is_taken (err e) = false

module _ {T : Type 0} where
  unfoldable pub then_done : List (Effect T) → Done T → Done T
  then_done es d = record { result = d.result; effects = es ++ d.effects }

  module _ (swr : Swr) (a : Answers T) where
    unfoldable pub is_fresh : ℕ → Envelope T → Bool
    is_fresh now_ms env = ltb ((now_ms - env.ts_ms) * 1000000) swr.fresh_ttl

    -- The loader, and the store of what it gives; the store's own failure is ignored.
    unfoldable pub load_and_store : Done T
    load_and_store = elim a.load [
      | ok v ↦ record { result = ok v; effects = loads ∷ stores v ∷ [] }
      | err e ↦ record { result = err e; effects = loads ∷ [] }
    ]

    unfoldable pub load_under_lock : Done T
    load_under_lock = elim a.load [
      | ok v ↦ record { result = ok v; effects = loads ∷ stores v ∷ deletes_lock ∷ [] }
      | err e ↦ record { result = err e; effects = loads ∷ deletes_lock ∷ [] }
    ]

    -- A poll that finds a fresh value.
    unfoldable pub polled : ℕ → Option T
    polled i = elim (a.poll i) [
      | err e ↦ none
      | ok raw ↦ elim raw [
        | none ↦ none
        | some text ↦ elim (a.from_str text) [
          | none ↦ none
          | some env ↦ if is_fresh (a.poll_now_ms i) env then some env.payload else none
        ]
      ]
    ]

    -- The loop of polls, with those that are left and the number of the next one.
    unfoldable pub poll_loop : ℕ → ℕ → Done T
    poll_loop zero i = load_and_store
    poll_loop (suc left) i =
        let rest = then_done (sleeps ∷ gets ∷ []) (poll_loop left (suc i)) in
        elim (polled i) [
          | some v ↦ record { result = ok v; effects = sleeps ∷ gets ∷ [] }
          | none ↦ rest
        ]

    unfoldable pub max_polls : ℕ
    max_polls = let n = swr.lock_ttl / 1000000 / 25 in if leb 1 n then n else 1

    unfoldable pub miss : Done T
    miss =
        if is_taken a.set_lock
        then then_done (locks ∷ []) load_under_lock
        else then_done (locks ∷ []) (poll_loop max_polls 0)

    -- What the store had: a fresh value, a stale one, or nothing that can be read.
    unfoldable pub hit : Envelope T → Done T
    hit env =
        if is_fresh a.get_now_ms env
        then record { result = ok env.payload; effects = [] }
        else record { result = ok env.payload; effects = spawns_refresh ∷ [] }

    unfoldable pub with_raw : Option String → Done T
    with_raw none = miss
    with_raw (some raw) = elim (a.from_str raw) [ none ↦ miss | some env ↦ hit env ]

    unfoldable pub get_or_load : Done T
    get_or_load = if swr.bypass then load_and_store else elim a.get [
      | err e ↦ record { result = a.load; effects = gets ∷ loads ∷ [] }
      | ok raw ↦ then_done (gets ∷ []) (with_raw raw)
    ]

    -- The task that `spawn_refresh` starts.
    unfoldable pub spawn_refresh : List (Effect T)
    spawn_refresh =
        if is_taken a.set_lock
        then elim a.load [
          | ok v ↦ locks ∷ loads ∷ stores v ∷ deletes_lock ∷ []
          | err e ↦ locks ∷ loads ∷ deletes_lock ∷ []
        ]
        else locks ∷ []
