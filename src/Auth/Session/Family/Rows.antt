-- ===== src/Auth/Session/Family/Rows.antt =====
-- crates/auth/src/session.rs: revoking rows and inserting one keep the table's invariant.
use kit.Prelude.{
  ℕ, Bool, true, false, List, [], ◌∷◌, ◌++◌, ◌≡◌, ◌⊎◌, inl, inr, refl, ap, arith, ◌==◌,
  if◌then◌else◌,
}
use kit.Prelude.Rows.{update_where, AllRows, AllRows-map}
use kit.Prelude.Rows.Distinct.{
  DistinctBy-update_where, DistinctBy-update_where_mono, DistinctBy-append, AllRows-any,
}
use kit.Auth.Session.{Session, is_revoked, revoke}
use kit.Auth.Session.Store.{same_id, same_hash, rivals, strangers, IsStore}

-- Revoking by any condition.
pub revoke-IsStore :
    (p : Session → Bool) (now : ℕ) (sessions : List Session)
    → IsStore sessions
    → IsStore (update_where p (revoke now) sessions)
revoke-IsStore p now sessions h = record {
  ids = DistinctBy-update_where same_id p (revoke now) sessions (λ r s. refl) (λ r s. refl) h.ids;
  hashes =
      DistinctBy-update_where same_hash p (revoke now) sessions (λ r s. refl) (λ r s. refl)
        h.hashes;
  sole =
      DistinctBy-update_where_mono rivals p (revoke now) sessions (λ r s k. ground arith)
        (λ r s k. ground arith) h.sole;
  owner =
      DistinctBy-update_where strangers p (revoke now) sessions (λ r s. refl) (λ r s. refl) h.owner;
}

-- A new row that is unused, and alone in its family but for revoked sessions of its user.
pub append-IsStore :
    (new : Session) (sessions : List Session)
    → AllRows
        (λ s.
          (same_id s new ≡ false)
          × (same_hash s new ≡ false)
          × (rivals s new ≡ false)
          × (strangers s new ≡ false))
        sessions
    → IsStore sessions
    → IsStore (sessions ++ new ∷ [])
append-IsStore new sessions free h = record {
  ids =
      DistinctBy-append same_id sessions new
        (AllRows-any (λ s. same_id s new) sessions (AllRows-map (λ s f. f.0) sessions free)) h.ids;
  hashes =
      DistinctBy-append same_hash sessions new
        (AllRows-any (λ s. same_hash s new) sessions (AllRows-map (λ s f. f.1) sessions free))
        h.hashes;
  sole =
      DistinctBy-append rivals sessions new
        (AllRows-any (λ s. rivals s new) sessions (AllRows-map (λ s f. f.2) sessions free)) h.sole;
  owner =
      DistinctBy-append strangers sessions new
        (AllRows-any (λ s. strangers s new) sessions (AllRows-map (λ s f. f.3) sessions free))
        h.owner;
}

-- Revoking the session that is rotated leaves no session of its family that is not revoked, and
-- none of another user.
pub after_revoke :
    (old new : Session) (now : ℕ) (sessions : List Session)
    → new.family_id ≡ old.family_id
    → new.user_id ≡ old.user_id
    → AllRows (λ s. (s ≡ old) ⊎ (rivals old s ≡ false)) sessions
    → AllRows (λ s. (s ≡ old) ⊎ (strangers old s ≡ false)) sessions
    → is_revoked old ≡ false
    → AllRows (λ s. (same_id s new ≡ false) × (same_hash s new ≡ false)) sessions
    → AllRows
        (λ s.
          (same_id s new ≡ false)
          × (same_hash s new ≡ false)
          × (rivals s new ≡ false)
          × (strangers s new ≡ false))
        (update_where (λ s. s.id == old.id) (revoke now) sessions)
unfolding update_where
after_revoke old new now [] fam user sole owner active unused = tt
after_revoke old new now (s ∷ rest) fam user sole owner active unused = (
  at_row (s.id == old.id) refl,
  after_revoke old new now rest fam user sole.1 owner.1 active unused.1,
)
  where
    is_owner : strangers s new ≡ false
    is_owner = elim owner.0 [
      | inl e ↦
          let fam' : s.family_id ≡ old.family_id = ap (λ (x : Session). x.family_id) e in
          let user' : s.user_id ≡ old.user_id = ap (λ (x : Session). x.user_id) e in ground arith
      | inr k ↦ ground arith
    ]

    at_row :
        (b : Bool)
        → (s.id == old.id) ≡ b
        → let s' : Session = if b then revoke now s else s in
          (same_id s' new ≡ false)
          × (same_hash s' new ≡ false)
          × (rivals s' new ≡ false)
          × (strangers s' new ≡ false)
    at_row true e = (unused.0.0, unused.0.1, ground arith, is_owner)
    at_row false e = (
      unused.0.0,
      unused.0.1,
      elim sole.0 [
        | inl k ↦ let id' : s.id ≡ old.id = ap (λ (x : Session). x.id) k in ground arith
        | inr k ↦ ground arith
      ],
      is_owner,
    )
