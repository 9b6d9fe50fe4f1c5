-- ===== src/Auth/Session/Store.antt =====
-- crates/auth/src/session.rs: the table's invariant, and its steps.
use kit.Prelude.{ℕ, Bool, false, not, ◌&&◌, Option, String, List, ◌≡◌, ◌==◌}
use kit.Prelude.Rows.{AllRows}
use kit.Prelude.Rows.Distinct.{DistinctBy}
use kit.Auth.Session.{Session, Drawn, is_revoked, revoke_family, create, rotate}

abbrev pub same_id : Session → Session → Bool
same_id r s = s.id == r.id

abbrev pub same_hash : Session → Session → Bool
same_hash r s = s.refresh_token_hash == r.refresh_token_hash

-- Both could be rotated, and descend from one login.
abbrev pub rivals : Session → Session → Bool
rivals r s = (s.family_id == r.family_id) && (not (is_revoked r) && not (is_revoked s))

abbrev pub strangers : Session → Session → Bool
strangers r s = (s.family_id == r.family_id) && not (s.user_id == r.user_id)

-- No two rows have one id or one hash, a family has at most one session that is not revoked, and all
-- its sessions are one user's.
pub record IsStore (sessions : List Session) : Type 0 where
  pub ids : DistinctBy same_id sessions
  pub hashes : DistinctBy same_hash sessions
  pub sole : DistinctBy rivals sessions
  pub owner : DistinctBy strangers sessions

-- No session has the id or the hash of the token.
abbrev pub IsUnused : (String → ℕ) → Drawn → List Session → Type 0
IsUnused hash drawn =
    AllRows
      (λ s. ((s.id == drawn.id) ≡ false) × ((s.refresh_token_hash == hash drawn.token) ≡ false))

abbrev pub IsNewFamily : ℕ → List Session → Type 0
IsNewFamily family = AllRows (λ s. (s.family_id == family) ≡ false)

module _ (hash : String → ℕ) (from_std : ℕ → Option ℕ) where
  -- One operation of the store; what it draws is not in use yet.
  pub data Step : List Session → List Session → Type 0 where
    creates :
        (sessions : List Session) (drawn : Drawn) (family now user : ℕ)
        (user_agent ip : Option String) (ttl : ℕ)
        → IsUnused hash drawn sessions
        → IsNewFamily family sessions
        → Step sessions (create hash from_std drawn family now user user_agent ip ttl sessions).1
    rotates :
        (sessions : List Session) (drawn : Drawn) (now : ℕ) (token : String) (ttl : ℕ)
        → IsUnused hash drawn sessions
        → Step sessions (rotate hash from_std drawn now token ttl sessions).1
    revokes :
        (sessions : List Session) (now family : ℕ)
        → Step sessions (revoke_family now family sessions)

  -- Any number of operations.
  pub data Steps : List Session → List Session → Type 0 where
    stop : {sessions : List Session} → Steps sessions sessions
    more :
        {sessions sessions' sessions'' : List Session}
        → Steps sessions sessions'
        → Step sessions' sessions''
        → Steps sessions sessions''
