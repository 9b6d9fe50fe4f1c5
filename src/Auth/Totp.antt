-- ===== src/Auth/Totp.antt =====
-- crates/auth/src/totp.rs: codes of a second factor and recovery codes. totp-rs, the key provider of
-- crates/crypto, SHA-256, base64 and the random source are parameters or arguments.
pub mod Replay
pub mod Recovery
mod Examples
use kit.Prelude.{
  ℕ, zero, suc, Bool, true, false, Option, none, some, String, List, [], ◌∷◌, map, ltb,
  if◌then◌else◌, Result, ok, err, ◌>>=◌, ok_or,
}
use kit.Prelude.Text.{bytes_eq}

abbrev pub totp_digits : ℕ
totp_digits = 6

abbrev pub totp_step_secs : ℕ
totp_step_secs = 30

abbrev pub totp_skew : ℕ
totp_skew = 1

abbrev pub issuer : String
issuer = "FerrLabs"

pub data TotpError : Type 0 where
  invalid_config : String → TotpError
  crypto : String → TotpError
  clock_error : TotpError

pub record TotpEnrollment : Type 0 where
  pub seed : List ℕ
  pub account : String

pub data Algorithm : Type 0 where
  sha1 : Algorithm

-- The builder of totp-rs, and what it builds.
pub record Builder : Type 0 where
  pub algorithm : Algorithm
  pub digits : ℕ
  pub skew : ℕ
  pub step_duration : ℕ
  pub secret : List ℕ
  pub issuer : Option String
  pub account_name : String

pub record Rfc : Type 1 where
  pub Totp : Type 0
  pub build : Builder → Result String Totp
  pub to_url : Totp → Result String String
  pub check : Totp → String → ℕ → Option ℕ
  pub generate : Totp → ℕ → String

-- Two backends of crates/crypto behind `SharedKeyProvider`; wrapping draws a nonce.
pub record KeyProvider : Type 0 where
  pub wrap_dek : List ℕ → List ℕ → Result String (List ℕ)
  pub unwrap_dek : List ℕ → Result String (List ℕ)

abbrev pub map_err : {E F T : Type 0} → (E → F) → Result E T → Result F T
map_err f (ok t) = ok t
map_err f (err e) = err (f e)

unfoldable pub generate : List ℕ → String → TotpEnrollment
generate seed account_email = record { seed = seed; account = account_email }

unfoldable pub from_seed : List ℕ → String → TotpEnrollment
from_seed seed account_email = record { seed = seed; account = account_email }

unfoldable pub seal_seed : KeyProvider → List ℕ → TotpEnrollment → Result TotpError (List ℕ)
seal_seed key_provider nonce e = map_err crypto (key_provider.wrap_dek nonce e.seed)

unfoldable pub unseal_seed : KeyProvider → List ℕ → Result TotpError (List ℕ)
unseal_seed key_provider sealed = map_err crypto (key_provider.unwrap_dek sealed)

-- Of the clock: none, where it stands before the epoch.
unfoldable pub unix_now : Option ℕ → Result TotpError ℕ
unix_now now = ok_or now clock_error

module _ (r : Rfc) where
  unfoldable pub totp : TotpEnrollment → Result TotpError (r.Totp)
  totp e = map_err invalid_config (
      r.build (record {
        algorithm = sha1;
        digits = totp_digits;
        skew = totp_skew;
        step_duration = totp_step_secs;
        secret = e.seed;
        issuer = some issuer;
        account_name = e.account;
      }))

  unfoldable pub provisioning_uri : TotpEnrollment → Result TotpError String
  provisioning_uri e = totp e >>= λ t. map_err invalid_config (r.to_url t)

  -- `filter(|step| last_used_step.is_none_or(|last| *step > last))`.
  unfoldable pub unused : Option ℕ → Option ℕ → Option ℕ
  unused last_used_step none = none
  unused none (some step) = some step
  unused (some last) (some step) = if ltb last step then some step else none

  unfoldable pub verify_step_at :
      TotpEnrollment → String → ℕ → Option ℕ → Result TotpError (Option ℕ)
  verify_step_at e code unix_time last_used_step =
      totp e >>= λ t. ok (unused last_used_step (r.check t code unix_time))

  unfoldable pub verify_at : TotpEnrollment → String → ℕ → Result TotpError Bool
  verify_at e code unix_time = verify_step_at e code unix_time none >>= λ step.
      ok (elim step [ none ↦ false | some s ↦ true ])

  unfoldable pub verify_step_now :
      TotpEnrollment → String → Option ℕ → Option ℕ → Result TotpError (Option ℕ)
  verify_step_now e code now last_used_step =
      unix_now now >>= λ unix_time. verify_step_at e code unix_time last_used_step

  unfoldable pub verify_now : TotpEnrollment → String → Option ℕ → Result TotpError Bool
  verify_now e code now = unix_now now >>= λ unix_time. verify_at e code unix_time

  unfoldable pub current_code_at : TotpEnrollment → ℕ → Result TotpError String
  current_code_at e unix_time = totp e >>= λ t. ok (r.generate t unix_time)

pub record RecoveryCode : Type 0 where
  pub plaintext : String
  pub hash : List ℕ

module _ (hash_recovery_code : String → List ℕ) where
  -- With the texts of the bytes that are drawn.
  unfoldable pub generate_recovery_codes : List String → List RecoveryCode
  generate_recovery_codes drawn =
      map (λ plaintext. record { plaintext = plaintext; hash = hash_recovery_code plaintext }) drawn

  unfoldable pub match_loop : List ℕ → ℕ → Option ℕ → List (List ℕ) → Option ℕ
  match_loop presented idx matched [] = matched
  match_loop presented idx matched (stored ∷ hashes) =
      match_loop presented (suc idx) (if bytes_eq presented stored then some idx else matched)
        hashes

  unfoldable pub verify_and_consume : String → List (List ℕ) → Option ℕ
  verify_and_consume code hashes = match_loop (hash_recovery_code code) 0 none hashes
