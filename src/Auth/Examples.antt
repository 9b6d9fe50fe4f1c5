-- ===== src/Auth/Examples.antt =====
-- crates/auth: tests, and the theorems at concrete tables of sessions.
use kit.Prelude.{
  ℕ, ◌*◌, ◌<◌, Option, none, some, String, List, [], ◌∷◌, ◌≡◌, ◌≢◌, refl, arith, str_eq,
  if◌then◌else◌, Result, ok, err,
}
use kit.Prelude.Rows.{update_where, find}
use kit.Auth.Session.{
  Session, SessionError, IssuedSession, Drawn, with_hash, create, rotate, rotate_row, rotated,
  get_active, not_found, reuse_detected, lifetime,
}
use kit.Auth.Session.Store.{IsStore, IsUnused, creates, rotates, Steps, stop, more}
use kit.Auth.Session.Family.{Steps-IsStore}
use kit.Auth.Session.Replay.{replay_burns}
use kit.Auth.Session.Active.{rotate-get_active}

abbrev hash : String → ℕ
hash t = if str_eq t "first" then 1 else if str_eq t "second" then 2 else 3

abbrev from_std : ℕ → Option ℕ
from_std secs = some (secs * 1000000)

abbrev first : Drawn
first = record { id = 11; token = "first" }

abbrev second : Drawn
second = record { id = 12; token = "second" }

abbrev third : Drawn
third = record { id = 13; token = "third" }

abbrev logged_in : List Session
logged_in = (create hash from_std first 7 1000 42 (some "curl") none 60 []).1

abbrev login_row : Session
login_row = record {
  id = 11;
  user_id = 42;
  family_id = 7;
  refresh_token_hash = 1;
  user_agent = some "curl";
  ip = none;
  created_at = 1000;
  last_used_at = 1000;
  revoked_at = none;
  expires_at = 60001000;
}

abbrev rotation : Result SessionError IssuedSession × List Session
rotation = rotate hash from_std second 2000 "first" 60 logged_in

abbrev issued : IssuedSession
issued = record {
  session = rotated hash from_std second 2000 60 login_row;
  refresh_token_plain = "second";
}

login_test : logged_in ≡ login_row ∷ []
unfolding create lifetime
login_test = refl

rotation_test : rotation ≡ (ok issued, rotation.1)
unfolding create rotate rotate_row rotated lifetime find
rotation_test = refl

replay_test : (rotate hash from_std third 3000 "first" 60 rotation.1).0 ≡ err reuse_detected
unfolding create rotate rotate_row rotated lifetime find update_where
replay_test = refl

logins : Steps hash from_std [] logged_in
logins = more stop (creates [] first 7 1000 42 (some "curl") none 60 tt tt)

second-IsUnused : IsUnused hash second logged_in
unfolding create
second-IsUnused = ((refl, refl), tt)

Steps-IsStore_example : IsStore rotation.1
Steps-IsStore_example = Steps-IsStore hash from_std (
    more (more stop (creates [] first 7 1000 42 (some "curl") none 60 tt tt))
      (rotates logged_in second 2000 "first" 60 second-IsUnused))

replay_burns_example :
    ((rotate hash from_std third 3000 "first" 60 rotation.1).0 ≡ err reuse_detected)
    × (get_active hash from_std 4000 "second"
          (rotate hash from_std third 3000 "first" 60 rotation.1).1
        ≢ ok issued.session)
replay_burns_example =
    replay_burns hash from_std second third 2000 3000 4000 60 60 "first" "second" logged_in
      issued.session rotation_test stop stop refl

live : 4000 < issued.session.expires_at
unfolding rotated lifetime
live = omega arith

logged_in-IsStore : IsStore logged_in
logged_in-IsStore = Steps-IsStore hash from_std logins

rotate-get_active_example :
    (get_active hash from_std 4000 issued.refresh_token_plain rotation.1 ≡ ok issued.session)
    × (get_active hash from_std 4000 "first" rotation.1 ≡ err not_found)
rotate-get_active_example =
    rotate-get_active hash from_std second 2000 4000 "first" 60 logged_in logged_in-IsStore
      second-IsUnused rotation_test live

active_test : get_active hash from_std 2000 "first" logged_in ≡ ok login_row
unfolding get_active create lifetime find
active_test = refl

found_test : find (with_hash (hash "first")) logged_in ≡ some login_row
unfolding find create lifetime
found_test = refl
