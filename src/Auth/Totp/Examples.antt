-- ===== src/Auth/Totp/Examples.antt =====
-- crates/auth/src/totp.rs: tests, and the theorems at concrete logins.
use kit.Prelude.{
  ℕ, suc, ◌==◌, none, some, String, List, [], ◌∷◌, ◌≡◌, refl, str_eq, ltb, if◌then◌else◌, ok, ◌&&◌,
  leb, ◌⊎◌,
}
use kit.Prelude.Text.{bytes_eq}
use kit.Auth.Totp.{
  Rfc, TotpEnrollment, totp, unused, from_seed, match_loop, verify_step_at, verify_and_consume,
}
use kit.Auth.Totp.Replay.{accepted}
use kit.Auth.Totp.Recovery.{count, consume, verify_and_consume-count}

-- One code for every step, and the step of which the time is in the window of one to each side.
abbrev rfc : Rfc
rfc = record {
  Totp = Unit;
  build = λ b. ok tt;
  to_url = λ t. ok "otpauth://totp";
  check = λ t code unix_time.
      if str_eq code "123456" && leb 60 unix_time && ltb unix_time 150 then some 3 else none;
  generate = λ t unix_time. if unix_time == 90 then "123456" else "000000";
}

abbrev enrollment : TotpEnrollment
enrollment = from_seed (1 ∷ 2 ∷ []) "a@b.c"

-- The same code twice, in one period.
abbrev logins : List (String × ℕ)
logins = ("123456", 95) ∷ ("123456", 100) ∷ []

accepted_test : accepted rfc enrollment none logins ≡ (3, "123456", 95) ∷ []
unfolding accepted verify_step_at totp unused from_seed
accepted_test = refl

abbrev hash : String → List ℕ
hash code = if str_eq code "one" then 1 ∷ [] else 2 ∷ []

abbrev hashes : List (List ℕ)
hashes = (2 ∷ []) ∷ (1 ∷ []) ∷ []

consumed_test : verify_and_consume hash "one" hashes ≡ some 1
unfolding verify_and_consume match_loop bytes_eq
consumed_test = refl

verify_and_consume-count_example :
    (verify_and_consume hash "one" hashes ≡ none) × (count (hash "one") hashes ≡ 0)
    ⊎ (i : ℕ) × (verify_and_consume hash "one" hashes ≡ some i)
      × (suc (count (hash "one") (consume i hashes)) ≡ count (hash "one") hashes)
verify_and_consume-count_example = verify_and_consume-count hash "one" hashes
