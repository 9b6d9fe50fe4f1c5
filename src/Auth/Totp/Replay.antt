-- ===== src/Auth/Totp/Replay.antt =====
-- crates/auth/src/totp.rs: the replay guard over a sequence of logins, and sealed seeds.
use kit.Prelude.{ℕ, ◌+◌, ◌*◌, ◌≤◌, ◌<◌, Option, none, some, String, List, [], ◌∷◌, ◌≡◌, ok, err}
use kit.Auth.Totp.{TotpEnrollment, Rfc, totp_step_secs, totp, verify_step_at}

module _ (r : Rfc) where
  -- What totp-rs documents of `check`: the step that it answers has the code, and lies within one step
  -- of the time.
  unfoldable pub IsWindowed : Type 0
  IsWindowed =
      (t : r.Totp) (code : String) (unix_time step : ℕ)
      → r.check t code unix_time ≡ some step
      → (r.generate t (step * totp_step_secs) ≡ code)
        × (unix_time < (step + 2) * totp_step_secs)
        × (step * totp_step_secs ≤ unix_time + totp_step_secs)

  -- Logins with one enrollment, in order, each a code and its time: an accepted step is stored before
  -- the next login, and a refused one leaves what is stored. The steps that are accepted, with their logins:
  unfoldable pub accepted : TotpEnrollment → Option ℕ → List (String × ℕ) → List (ℕ × String × ℕ)
  accepted e last [] = []
  accepted e last ((code, unix_time) ∷ logins) =
      let kept = accepted e last logins in
      elim (verify_step_at r e code unix_time last) [
        | err failed ↦ kept
        | ok none ↦ kept
        | ok (some step) ↦ (step, code, unix_time) ∷ accepted e (some step) logins
      ]

  unfoldable pub Above : Option ℕ → ℕ → Type 0
  Above none step = Unit
  Above (some last) step = last < step

  -- Each step is above those before it, and its code is the one of the step, near its time.
  unfoldable pub AreFresh : TotpEnrollment → Option ℕ → List (ℕ × String × ℕ) → Type 0
  AreFresh e last [] = Unit
  AreFresh e last ((step, code, unix_time) ∷ steps) =
      Above last step
      × ((t : r.Totp) × (totp r e ≡ ok t) × (r.generate t (step * totp_step_secs) ≡ code))
      × (unix_time < (step + 2) * totp_step_secs)
      × (step * totp_step_secs ≤ unix_time + totp_step_secs)
      × AreFresh e (some step) steps
