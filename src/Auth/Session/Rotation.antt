-- ===== src/Auth/Session/Rotation.antt =====
-- crates/auth/src/session.rs: what a rotation does to the table.
use mathlib.Core.Path.{subst}
use kit.Prelude.{
  ℕ, true, false, Option, some, String, List, [], ◌∷◌, ◌++◌, ◌≡◌, inl, inr, arith, ltb, ◌==◌, ok,
  err, Option-cases, Bool-cases,
}
use kit.Prelude.Rows.{update_where, find}
use kit.Auth.Session.{
  Session, IssuedSession, Drawn, is_revoked, revoke, with_hash, revoke_family, rotate, rotate_row,
  rotated, reuse_detected,
}

module _ (hash : String → ℕ) (from_std : ℕ → Option ℕ) where
  -- What a rotation leaves: the same table, the family of a revoked session revoked, or a session
  -- that was not revoked replaced by a new one of its family.
  pub data Left (h now : ℕ) (drawn : Drawn) (ttl : ℕ) (sessions : List Session)
      : List Session → Type 0 where
    same : Left h now drawn ttl sessions sessions
    burnt : (family : ℕ) → Left h now drawn ttl sessions (revoke_family now family sessions)
    replaced :
        (old : Session)
        → find (with_hash h) sessions ≡ some old
        → is_revoked old ≡ false
        → Left h now drawn ttl sessions (
            update_where (λ s. s.id == old.id) (revoke now) sessions
            ++ rotated hash from_std drawn now ttl old ∷ [])

  pub rotate-Left :
      (drawn : Drawn) (now : ℕ) (token : String) (ttl : ℕ) (sessions : List Session)
      → Left
          (hash token)
          now
          drawn
          ttl
          sessions
          (rotate hash from_std drawn now token ttl sessions).1
  unfolding rotate rotate_row
  rotate-Left drawn now token ttl sessions =
      elim (Option-cases (find (with_hash (hash token)) sessions)) [
        | inl e ↦ subst (Left (hash token) now drawn ttl sessions) (ground (arith, e)) same
        | inr (old, e) ↦ elim (Bool-cases (is_revoked old)) [
          | inl r ↦
              subst (Left (hash token) now drawn ttl sessions) (ground (arith, e, r))
                (burnt old.family_id)
          | inr r ↦ elim (Bool-cases (ltb old.expires_at now)) [
            | inl l ↦
                subst (Left (hash token) now drawn ttl sessions) (ground (arith, e, r, l)) same
            | inr l ↦
                subst (Left (hash token) now drawn ttl sessions) (ground (arith, e, r, l))
                  (replaced old e r)
          ]
        ]
      ]

  pub rotate_revoked :
      (drawn : Drawn) (now : ℕ) (token : String) (ttl : ℕ) (sessions : List Session) (s : Session)
      → find (with_hash (hash token)) sessions ≡ some s
      → is_revoked s ≡ true
      → rotate hash from_std drawn now token ttl sessions
        ≡ (err reuse_detected, revoke_family now s.family_id sessions)
  unfolding rotate rotate_row
  rotate_revoked drawn now token ttl sessions s e r = ground arith

  -- What a rotation that succeeds has found and done.
  pub record Rotated (drawn : Drawn) (now : ℕ) (token : String) (ttl : ℕ) (sessions : List Session)
      (issued : IssuedSession) (sessions' : List Session) : Type 0 where
    pub old : Session
    pub found : find (with_hash (hash token)) sessions ≡ some old
    pub active : is_revoked old ≡ false
    pub in_time : ltb old.expires_at now ≡ false
    pub gives : issued ≡ record {
      session = rotated hash from_std drawn now ttl old;
      refresh_token_plain = drawn.token;
    }
    pub leaves :
        sessions'
        ≡ update_where (λ s. s.id == old.id) (revoke now) sessions
          ++ rotated hash from_std drawn now ttl old ∷ []

  pub rotate-Rotated :
      (drawn : Drawn) (now : ℕ) (token : String) (ttl : ℕ) (sessions : List Session)
      {issued : IssuedSession} {sessions' : List Session}
      → rotate hash from_std drawn now token ttl sessions ≡ (ok issued, sessions')
      → Rotated drawn now token ttl sessions issued sessions'
  unfolding rotate rotate_row
  rotate-Rotated drawn now token ttl sessions h =
      elim (Option-cases (find (with_hash (hash token)) sessions)) [
        | inl e ↦ absurd (cc (h, e))
        | inr (o, e) ↦ elim (Bool-cases (is_revoked o)) [
          | inl r ↦ absurd (ground (arith, h, e, r))
          | inr r ↦ elim (Bool-cases (ltb o.expires_at now)) [
            | inl l ↦ absurd (ground (arith, h, e, r, l))
            | inr l ↦ record {
              old = o;
              found = e;
              active = r;
              in_time = l;
              gives = ground (arith, h, e, r, l);
              leaves = ground (arith, h, e, r, l);
            }
          ]
        ]
      ]
