-- ===== src/Auth/Session/Replay.antt =====
-- crates/auth/src/session.rs: a token that is presented again after its rotation.
use mathlib.Core.Option
use mathlib.Core.Path.{subst}
use kit.Prelude.{
  ℕ, Bool, true, false, Option, none, some, String, List, [], ◌∷◌, ◌++◌, ◌≡◌, ◌≢◌, inl, inr, refl,
  sym, ap, ◌∙◌, arith, ◌==◌, if◌then◌else◌, ok, err, Option-cases,
}
use kit.Prelude.Rows.{
  update_where, find, AllRows, AllRows-update_where, AllRows-append, AllRows-at, Among, find-Among,
  find-passes, find-update_where, find-append,
}
use kit.Auth.Session.{
  Session, IssuedSession, Drawn, is_revoked, revoke, with_hash, active_in, revoke_family, create,
  rotate, rotated, reuse_detected, get_active, usable,
}
use kit.Auth.Session.Rotation.{
  Left, same, burnt, replaced, rotate-Left, rotate_revoked, rotate-Rotated,
}
use kit.Auth.Session.Store.{Step, creates, rotates, revokes, Steps, stop, more}

-- Every session of the family is revoked.
abbrev pub IsBurnt : ℕ → List Session → Type 0
IsBurnt family = AllRows (λ s. (s.family_id == family) ≡ true → is_revoked s ≡ true)

-- The row of this hash is revoked, and of this family.
abbrev pub IsSpent : ℕ → ℕ → List Session → Type 0
IsSpent h family sessions =
    (s : Session) × (find (with_hash h) sessions ≡ some s)
    × (s.family_id ≡ family)
    × (is_revoked s ≡ true)

revoke-IsBurnt :
    (family now : ℕ) (p : Session → Bool) (sessions : List Session)
    → IsBurnt family sessions
    → IsBurnt family (update_where p (revoke now) sessions)
revoke-IsBurnt family now p sessions h =
    AllRows-update_where (λ s. (s.family_id == family) ≡ true → is_revoked s ≡ true) p (revoke now)
      sessions (λ s _ k e. refl) h

revoke_family-IsBurnt :
    (family now : ℕ) (sessions : List Session) → IsBurnt family (revoke_family now family sessions)
unfolding revoke_family update_where
revoke_family-IsBurnt family now [] = tt
revoke_family-IsBurnt family now (s ∷ rest) =
    (λ e. ground arith, revoke_family-IsBurnt family now rest)

revoke-IsSpent :
    (h family now : ℕ) (p : Session → Bool) (sessions : List Session)
    → IsSpent h family sessions
    → IsSpent h family (update_where p (revoke now) sessions)
revoke-IsSpent h family now p sessions (s, e, f, r) = (
  if p s then revoke now s else s,
  find-update_where (with_hash h) p (revoke now) sessions (λ t. refl)
      ∙ ap (Option.map (λ t. if p t then revoke now t else t)) e,
  ground arith,
  ground arith,
)

revoke_family-IsSpent :
    (h family now : ℕ) (sessions : List Session)
    → IsSpent h family sessions
    → IsSpent h family (revoke_family now family sessions)
unfolding revoke_family
revoke_family-IsSpent h family now sessions k =
    revoke-IsSpent h family now (active_in family) sessions k

append-IsSpent :
    (h family : ℕ) (new : Session) (sessions : List Session)
    → IsSpent h family sessions
    → IsSpent h family (sessions ++ new ∷ [])
append-IsSpent h family new sessions (s, e, f, r) = (
  s,
  find-append (with_hash h) sessions (new ∷ [])
      ∙ ap (λ o. elim o [ none ↦ find (with_hash h) (new ∷ []) | some t ↦ some t ]) e,
  f,
  r,
)

module _ (hash : String → ℕ) (from_std : ℕ → Option ℕ) where
  Step-IsSpent :
      {sessions sessions' : List Session} (h family : ℕ)
      → Step hash from_std sessions sessions'
      → IsSpent h family sessions
      → IsSpent h family sessions'
  unfolding create revoke_family
  Step-IsSpent h family (creates sessions drawn f now user user_agent ip ttl unused alone) k =
      append-IsSpent h family _ sessions k
  Step-IsSpent h family (rotates sessions drawn now token ttl unused) k =
      by_left (rotate-Left hash from_std drawn now token ttl sessions)
    where
      by_left :
          {after : List Session}
          → Left hash from_std (hash token) now drawn ttl sessions after
          → IsSpent h family after
      by_left same = k
      by_left (burnt f) = revoke-IsSpent h family now (active_in f) sessions k
      by_left (replaced old e r) =
          append-IsSpent h family _ (update_where (λ s. s.id == old.id) (revoke now) sessions)
            (revoke-IsSpent h family now (λ s. s.id == old.id) sessions k)
  Step-IsSpent h family (revokes sessions now f) k =
      revoke-IsSpent h family now (active_in f) sessions k

  Step-IsBurnt :
      {sessions sessions' : List Session} (family : ℕ)
      → Step hash from_std sessions sessions'
      → (s : Session) × Among s sessions × (s.family_id ≡ family)
      → IsBurnt family sessions
      → IsBurnt family sessions'
  unfolding create revoke_family rotated
  Step-IsBurnt family (creates sessions drawn f now user user_agent ip ttl unused alone) (s, m, e)
        k =
      let other = AllRows-at (λ t. (t.family_id == f) ≡ false) sessions s alone m in
      AllRows-append (λ t. (t.family_id == family) ≡ true → is_revoked t ≡ true) sessions _ k
        (λ same_family. ground arith, tt)
  Step-IsBurnt family (rotates sessions drawn now token ttl unused) (s, m, e) k =
      by_left (rotate-Left hash from_std drawn now token ttl sessions)
    where
      by_left :
          {after : List Session}
          → Left hash from_std (hash token) now drawn ttl sessions after
          → IsBurnt family after
      by_left same = k
      by_left (burnt f) = revoke-IsBurnt family now (active_in f) sessions k
      by_left (replaced old e r) =
          let at_old =
            AllRows-at (λ t. (t.family_id == family) ≡ true → is_revoked t ≡ true) sessions old k
              (find-Among (with_hash (hash token)) sessions old e) in
          AllRows-append (λ t. (t.family_id == family) ≡ true → is_revoked t ≡ true)
            (update_where (λ s. s.id == old.id) (revoke now) sessions) _
            (revoke-IsBurnt family now (λ s. s.id == old.id) sessions k)
            (λ same_family. cc (at_old same_family, r), tt)
  Step-IsBurnt family (revokes sessions now f) _ k =
      revoke-IsBurnt family now (active_in f) sessions k

  Steps-IsSpent :
      {sessions sessions' : List Session} (h family : ℕ)
      → Steps hash from_std sessions sessions'
      → IsSpent h family sessions
      → IsSpent h family sessions'
  Steps-IsSpent h family stop k = k
  Steps-IsSpent h family (more earlier last) k =
      Step-IsSpent h family last (Steps-IsSpent h family earlier k)

  spent_stands :
      (h family : ℕ) (sessions : List Session)
      → IsSpent h family sessions
      → (s : Session) × Among s sessions × (s.family_id ≡ family)
  spent_stands h family sessions (s, e, f, r) = (s, find-Among (with_hash h) sessions s e, f)

  Steps-IsBurnt :
      {sessions sessions' : List Session} (h family : ℕ)
      → Steps hash from_std sessions sessions'
      → IsSpent h family sessions
      → IsBurnt family sessions
      → IsBurnt family sessions'
  Steps-IsBurnt h family stop spent k = k
  Steps-IsBurnt h family (more {sessions' = before} earlier last) spent k =
      Step-IsBurnt family last (spent_stands h family before (Steps-IsSpent h family earlier spent))
        (Steps-IsBurnt h family earlier spent k)

  burnt_unusable :
      (family now : ℕ) (token : String) (sessions : List Session) (s : Session)
      → IsBurnt family sessions
      → get_active hash from_std now token sessions ≡ ok s
      → s.family_id ≢ family
  unfolding get_active
  burnt_unusable family now token sessions s k e same_family =
      elim (Option-cases (find (usable hash from_std now (hash token)) sessions)) [
        | inl n ↦ cc (e, n)
        | inr (t, f) ↦
            let passes = find-passes (usable hash from_std now (hash token)) sessions t f in
            let at_t =
              AllRows-at (λ u. (u.family_id == family) ≡ true → is_revoked u ≡ true) sessions t k
                (find-Among (usable hash from_std now (hash token)) sessions t f) in
            let is_s : t ≡ s = ground (arith, e, f) in
            let in_family : (t.family_id == family) ≡ true =
              ground (arith, ap (λ (u : Session). u.family_id) is_s) in
            ground (arith, at_t in_family)
      ]

  -- A rotation that succeeds spends the token that it was given.
  rotate-IsSpent :
      (drawn : Drawn) (now : ℕ) (token : String) (ttl : ℕ) (sessions : List Session)
      {issued : IssuedSession} {sessions' : List Session}
      → rotate hash from_std drawn now token ttl sessions ≡ (ok issued, sessions')
      → IsSpent (hash token) issued.session.family_id sessions'
  unfolding rotated
  rotate-IsSpent drawn now token ttl sessions h =
      let r = rotate-Rotated hash from_std drawn now token ttl sessions h in
      let at_old =
        find-update_where (with_hash (hash token)) (λ s. s.id == r.old.id) (revoke now) sessions
          (λ s. refl)
        ∙ ap (Option.map (λ s. if s.id == r.old.id then revoke now s else s)) r.found in
      let spent : IsSpent (hash token) r.old.family_id
          (update_where (λ s. s.id == r.old.id) (revoke now) sessions) =
        (revoke now r.old, ground (arith, at_old), refl, refl) in
      subst (IsSpent (hash token) _) (sym r.leaves) (
        subst
          (λ (i : IssuedSession). IsSpent (hash token) i.session.family_id (
            update_where (λ s. s.id == r.old.id) (revoke now) sessions
            ++ rotated hash from_std drawn now ttl r.old ∷ []))
          (sym r.gives) (append-IsSpent (hash token) r.old.family_id _ _ spent))

  -- Presenting a token that was rotated, whatever the store has done since, is answered as reuse,
  -- and from then on, whatever the store does, no token gives a session of that family.
  pub replay_burns :
      (drawn drawn' : Drawn) (now now' at ttl ttl' : ℕ) (token any_token : String)
      (sessions : List Session) {issued : IssuedSession} {sessions' later after : List Session}
      (s : Session)
      → rotate hash from_std drawn now token ttl sessions ≡ (ok issued, sessions')
      → Steps hash from_std sessions' later
      → Steps hash from_std (rotate hash from_std drawn' now' token ttl' later).1 after
      → s.family_id ≡ issued.session.family_id
      → ((rotate hash from_std drawn' now' token ttl' later).0 ≡ err reuse_detected)
        × (get_active hash from_std at any_token after ≢ ok s)
  replay_burns drawn drawn' now now' at ttl ttl' token any_token sessions {issued} {sessions'}
        {later} {after} s rotation steps more_steps same_family =
      let family = issued.session.family_id in
      let spent =
        Steps-IsSpent (hash token) family steps
          (rotate-IsSpent drawn now token ttl sessions rotation) in
      let (t, found, of_family, gone) = spent in
      let answer = rotate_revoked hash from_std drawn' now' token ttl' later t found gone in
      let table : (rotate hash from_std drawn' now' token ttl' later).1
          ≡ revoke_family now' family later =
        ap (λ a. a.1) answer ∙ ap (λ f. revoke_family now' f later) of_family in
      let burnt_now =
        subst (IsBurnt family) (sym table) (revoke_family-IsBurnt family now' later) in
      let spent_now =
        subst (IsSpent (hash token) family) (sym table)
          (revoke_family-IsSpent (hash token) family now' later spent) in
      (
        ap (λ a. a.0) answer,
        λ e.
            burnt_unusable family at any_token after s
              (Steps-IsBurnt (hash token) family more_steps spent_now burnt_now) e same_family,
      )
