-- ===== src/Auth/Session/Family.antt =====
-- crates/auth/src/session.rs: what holds of every table that logins, rotations and revocations lead
-- to, in any order.
mod Rows
use kit.Prelude.{
  ℕ, Bool, true, false, not, ◌&&◌, Option, none, some, String, List, [], ◌∷◌, ◌++◌, ◌≡◌, ◌⊎◌, inl,
  inr, refl, ap, arith, ltb, ◌==◌, if◌then◌else◌, Result, ok, err,
}
use kit.Prelude.Rows.{update_where, find, AllRows, AllRows-map, Among, find-Among}
use kit.Prelude.Rows.Distinct.{
  DistinctBy, DistinctBy-update_where, DistinctBy-update_where_mono, DistinctBy-append,
  DistinctBy-Among, AllRows-any,
}
use kit.Auth.Session.{
  Session, SessionError, IssuedSession, Drawn, is_revoked, revoke, with_hash, active_in,
  revoke_family, create, rotate, rotate_row, rotated, reuse_detected, expired, not_found,
}
use kit.Auth.Session.Family.Rows.{revoke-IsStore, append-IsStore, after_revoke}
use kit.Auth.Session.Store.{
  same_id, same_hash, rivals, strangers, IsStore, IsUnused, IsNewFamily, Step, creates, rotates,
  revokes, Steps, stop, more,
}

abbrev Answer : Type 0
Answer = Result SessionError IssuedSession × List Session

module _ (hash : String → ℕ) (from_std : ℕ → Option ℕ) where
  create-IsStore :
      (sessions : List Session) (drawn : Drawn) (family now user : ℕ)
      (user_agent ip : Option String) (ttl : ℕ)
      → IsUnused hash drawn sessions
      → IsNewFamily family sessions
      → IsStore sessions
      → IsStore (create hash from_std drawn family now user user_agent ip ttl sessions).1
  unfolding create
  create-IsStore sessions drawn family now user user_agent ip ttl unused alone h =
      append-IsStore _ sessions (both sessions unused alone) h
    where
      both :
          (rows : List Session)
          → IsUnused hash drawn rows
          → IsNewFamily family rows
          → AllRows
              (λ s.
                ((drawn.id == s.id) ≡ false)
                × ((hash drawn.token == s.refresh_token_hash) ≡ false)
                × (((family == s.family_id) && (not (is_revoked s) && true)) ≡ false)
                × (((family == s.family_id) && not (user == s.user_id)) ≡ false))
              rows
      both [] u a = tt
      both (s ∷ rows) u a = (
        (ground (arith, u.0), ground (arith, u.0), ground (arith, a.0), ground (arith, a.0)),
        both rows u.1 a.1,
      )

  unused_by :
      (drawn : Drawn) (now ttl : ℕ) (old : Session) (sessions : List Session)
      → IsUnused hash drawn sessions
      → let new = rotated hash from_std drawn now ttl old in
        AllRows (λ s. (same_id s new ≡ false) × (same_hash s new ≡ false)) sessions
  unfolding rotated
  unused_by drawn now ttl old [] h = tt
  unused_by drawn now ttl old (s ∷ rest) h =
      ((ground (arith, h.0), ground (arith, h.0)), unused_by drawn now ttl old rest h.1)

  rotate_row-IsStore :
      (sessions : List Session) (drawn : Drawn) (now ttl : ℕ) (old : Session)
      → IsUnused hash drawn sessions
      → Among old sessions
      → IsStore sessions
      → IsStore (rotate_row hash from_std drawn now ttl old sessions).1
  unfolding rotate_row revoke_family rotated
  rotate_row-IsStore sessions drawn now ttl old unused m h = by_state (is_revoked old) refl
    where
      new : Session
      new = rotated hash from_std drawn now ttl old

      kept : List Session
      kept = update_where (λ s. s.id == old.id) (revoke now) sessions

      by_expiry :
          (late : Bool)
          → is_revoked old ≡ false
          → let answer : Answer = if late then (err expired, sessions) else (
            ok (record { session = new; refresh_token_plain = drawn.token }),
            kept ++ new ∷ [],
          ) in
            IsStore answer.1
      by_expiry true e = h
      by_expiry false e =
          append-IsStore new kept
            (after_revoke old new now sessions refl refl
              (DistinctBy-Among rivals old sessions (λ r s. ground arith) h.sole m)
              (DistinctBy-Among strangers old sessions (λ r s. ground arith) h.owner m) e
              (unused_by drawn now ttl old sessions unused))
            (revoke-IsStore (λ s. s.id == old.id) now sessions h)

      by_state :
          (b : Bool)
          → is_revoked old ≡ b
          → let answer : Answer =
              if b
              then (
                err reuse_detected,
                update_where (active_in old.family_id) (revoke now) sessions,
              )
              else if ltb old.expires_at now
              then (err expired, sessions)
              else (
                ok (record { session = new; refresh_token_plain = drawn.token }),
                kept ++ new ∷ [],
              ) in
            IsStore answer.1
      by_state true e = revoke-IsStore (active_in old.family_id) now sessions h
      by_state false e = by_expiry (ltb old.expires_at now) e

  rotate-IsStore :
      (sessions : List Session) (drawn : Drawn) (now : ℕ) (token : String) (ttl : ℕ)
      → IsUnused hash drawn sessions
      → IsStore sessions
      → IsStore (rotate hash from_std drawn now token ttl sessions).1
  unfolding rotate
  rotate-IsStore sessions drawn now token ttl unused h =
      by_row (find (with_hash (hash token)) sessions) refl
    where
      by_row :
          (o : Option Session)
          → find (with_hash (hash token)) sessions ≡ o
          → IsStore
              (elim o as (λ x. Answer) [
                | none ↦ (err not_found, sessions)
                | some old ↦ rotate_row hash from_std drawn now ttl old sessions
              ]).1
      by_row none e = h
      by_row (some old) e =
          rotate_row-IsStore sessions drawn now ttl old unused
            (find-Among (with_hash (hash token)) sessions old e) h

  Step-IsStore :
      {sessions sessions' : List Session}
      → Step hash from_std sessions sessions'
      → IsStore sessions
      → IsStore sessions'
  unfolding revoke_family
  Step-IsStore (creates sessions drawn family now user user_agent ip ttl unused alone) h =
      create-IsStore sessions drawn family now user user_agent ip ttl unused alone h
  Step-IsStore (rotates sessions drawn now token ttl unused) h =
      rotate-IsStore sessions drawn now token ttl unused h
  Step-IsStore (revokes sessions now family) h = revoke-IsStore (active_in family) now sessions h

  -- Whatever logins, rotations and revocations have run since the table was empty, no two sessions
  -- have one id or one hash, each family has at most one session that is not revoked, and the
  -- sessions of a family are all one user's.
  pub Steps-IsStore : {sessions : List Session} → Steps hash from_std [] sessions → IsStore sessions
  Steps-IsStore steps = from_start steps (record { ids = tt; hashes = tt; sole = tt; owner = tt })
    where
      from_start :
          {before after : List Session}
          → Steps hash from_std before after
          → IsStore before
          → IsStore after
      from_start stop h = h
      from_start (more earlier last) h = Step-IsStore last (from_start earlier h)
