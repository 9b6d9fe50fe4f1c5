-- ===== src/Queue/Job.antt =====
-- crates/queue/src/job.rs: the status of a job and the retry delay.
pub mod Backoff
use kit.Prelude.{
  ℕ, ◌^◌, ◌-◌, Bool, true, false, String, ◌≡◌, ◌↔◌, refl, str_eq, ltb, if◌then◌else◌, Result, ok,
  err,
}

pub data JobStatus : Type 0 where
  queued running done failed cancelled dead : JobStatus

unfoldable pub as_str : JobStatus → String
as_str queued = "queued"
as_str running = "running"
as_str done = "done"
as_str failed = "failed"
as_str cancelled = "cancelled"
as_str dead = "dead"

unfoldable pub is_terminal : JobStatus → Bool
is_terminal done = true
is_terminal cancelled = true
is_terminal dead = true
is_terminal _ = false

-- `UnknownJobStatus` carries the text.
unfoldable pub from_str : String → Result String JobStatus
from_str s =
    if str_eq s "queued"
    then ok queued
    else if str_eq s "running"
    then ok running
    else if str_eq s "done"
    then ok done
    else if str_eq s "failed"
    then ok failed
    else if str_eq s "cancelled"
    then ok cancelled
    else if str_eq s "dead"
    then ok dead
    else err s

-- What the column's CHECK admits is read back.
pub from_str-as_str : (s : JobStatus) → from_str (as_str s) ≡ ok s
unfolding from_str as_str
from_str-as_str queued = refl
from_str-as_str _ = refl

abbrev pub u64_max : ℕ
u64_max = 2 ^ 64 - 1

-- `2_u64.saturating_pow(attempt)`: above 63 the power does not fit.
unfoldable pub saturating_pow2 : ℕ → ℕ
saturating_pow2 attempt = if ltb attempt 64 then 2 ^ attempt else u64_max

unfoldable pub backoff_seconds : ℕ → ℕ
unfolding saturating_pow2
backoff_seconds attempt = let raw = saturating_pow2 attempt in if ltb 3600 raw then 3600 else raw
