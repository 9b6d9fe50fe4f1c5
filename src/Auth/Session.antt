-- ===== src/Auth/Session.antt =====
-- crates/auth/src/session.rs: `PgSessionStore`. The hash of a token and chrono's conversion of a
-- lifetime are parameters; a token, an id and a family that are drawn at random are arguments. Times
-- are microseconds. A transaction that ends in an error is rolled back.
pub mod Store
pub mod Family
pub mod Rotation
pub mod Replay
pub mod Active
use kit.Prelude.{
  ℕ, ◌+◌, ◌*◌, Bool, true, false, ◌&&◌, Option, none, some, String, List, [], ◌∷◌, ◌++◌, ltb, ◌==◌,
  if◌then◌else◌, Result, ok, err,
}
use kit.Prelude.Rows.{update_where, find}

-- The errors of the database are not in the model.
pub data SessionError : Type 0 where
  not_found expired revoked reuse_detected : SessionError

pub record Session : Type 0 where
  pub id : ℕ
  pub user_id : ℕ
  pub family_id : ℕ
  pub refresh_token_hash : ℕ
  pub user_agent : Option String
  pub ip : Option String
  pub created_at : ℕ
  pub last_used_at : ℕ
  pub revoked_at : Option ℕ
  pub expires_at : ℕ

pub record IssuedSession : Type 0 where
  pub session : Session
  pub refresh_token_plain : String

-- What is drawn at random for a new row.
pub record Drawn : Type 0 where
  pub id : ℕ
  pub token : String

abbrev pub is_revoked : Session → Bool
is_revoked s = elim s.revoked_at [ none ↦ false | some t ↦ true ]

abbrev pub revoke : ℕ → Session → Session
revoke now s = record s { revoked_at = some now }

abbrev pub with_hash : ℕ → Session → Bool
with_hash h s = s.refresh_token_hash == h

-- `family_id = $1 AND revoked_at IS NULL`
abbrev pub active_in : ℕ → Session → Bool
active_in family s = (s.family_id == family) && (if is_revoked s then false else true)

unfoldable pub revoke_family : ℕ → ℕ → List Session → List Session
revoke_family now family sessions = update_where (active_in family) (revoke now) sessions

abbrev pub day : ℕ
day = 24 * 3600 * 1000000

abbrev pub two_weeks : ℕ
two_weeks = 14 * day

module _ (hash : String → ℕ) (from_std : ℕ → Option ℕ) where
  -- `chrono::Duration::from_std(ttl).unwrap_or_else(|_| chrono::Duration::days(14))`
  unfoldable pub lifetime : ℕ → ℕ
  lifetime ttl = elim (from_std ttl) [ none ↦ two_weeks | some d ↦ d ]

  unfoldable pub create :
      Drawn
      → ℕ
      → ℕ
      → ℕ
      → Option String
      → Option String
      → ℕ
      → List Session
      → Result SessionError IssuedSession × List Session
  create drawn family now user user_agent ip ttl sessions =
      let new : Session = record {
        id = drawn.id;
        user_id = user;
        family_id = family;
        refresh_token_hash = hash drawn.token;
        user_agent = user_agent;
        ip = ip;
        created_at = now;
        last_used_at = now;
        revoked_at = none;
        expires_at = now + lifetime ttl;
      } in
      (ok (record { session = new; refresh_token_plain = drawn.token }), sessions ++ new ∷ [])

  -- The row that a rotation inserts.
  unfoldable pub rotated : Drawn → ℕ → ℕ → Session → Session
  rotated drawn now ttl old = record {
    id = drawn.id;
    user_id = old.user_id;
    family_id = old.family_id;
    refresh_token_hash = hash drawn.token;
    user_agent = none;
    ip = none;
    created_at = now;
    last_used_at = now;
    revoked_at = none;
    expires_at = now + lifetime ttl;
  }

  -- What a rotation does with the row that it found.
  unfoldable pub rotate_row :
      Drawn → ℕ → ℕ → Session → List Session → Result SessionError IssuedSession × List Session
  rotate_row drawn now ttl old sessions =
      if is_revoked old
      then (err reuse_detected, revoke_family now old.family_id sessions)
      else if ltb old.expires_at now
      then (err expired, sessions)
      else (
        ok (record { session = rotated drawn now ttl old; refresh_token_plain = drawn.token }),
        update_where (λ s. s.id == old.id) (revoke now) sessions ++ rotated drawn now ttl old ∷ [],
      )

  unfoldable pub rotate :
      Drawn → ℕ → String → ℕ → List Session → Result SessionError IssuedSession × List Session
  rotate drawn now token ttl sessions = elim (find (with_hash (hash token)) sessions) [
    | none ↦ (err not_found, sessions)
    | some old ↦ rotate_row drawn now ttl old sessions
  ]

  -- The WHERE of `get_active`.
  abbrev pub usable : ℕ → ℕ → Session → Bool
  usable now h s = with_hash h s && ((if is_revoked s then false else true) && ltb now s.expires_at)

  unfoldable pub get_active : ℕ → String → List Session → Result SessionError Session
  get_active now token sessions = elim (find (usable now (hash token)) sessions) [
    | none ↦ err not_found
    | some s ↦ ok s
  ]
