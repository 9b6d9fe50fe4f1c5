-- ===== src/Auth/Session/Active.antt =====
-- crates/auth/src/session.rs: what `get_active` answers before and after a rotation.
use mathlib.Core.Option
use mathlib.Core.Path.{subst}
use kit.Prelude.{
  ℕ, ◌<◌, Bool, true, false, Option, none, some, String, List, [], ◌∷◌, ◌++◌, ◌≡◌, refl, sym, ap,
  ◌∙◌, arith, ltb, ◌==◌, if◌then◌else◌, any, ok, err, Bool-cases, Option-cases, inl, inr,
}
use kit.Prelude.Rows.{
  update_where, find, find-passes, find-update_where, find-append, find_also, find-Among,
  AllRows-at,
}
use kit.Prelude.Rows.Distinct.{DistinctBy, DistinctBy-update_where, any-update_where}
use kit.Auth.Session.{
  Session, IssuedSession, Drawn, is_revoked, revoke, with_hash, rotate, rotate_row, rotated,
  not_found, get_active, usable,
}
use kit.Auth.Session.Rotation.{rotate-Rotated}
use kit.Auth.Session.Store.{same_hash, IsStore, IsUnused}

module _ (hash : String → ℕ) (from_std : ℕ → Option ℕ) where
  no_usable :
      (now h : ℕ) (sessions : List Session)
      → any (with_hash h) sessions ≡ false
      → find (usable hash from_std now h) sessions ≡ none
  unfolding any find
  no_usable now h [] k = refl
  no_usable now h (s ∷ rest) k = ground (arith, no_usable now h rest)

  -- With distinct hashes the row of the hash is the only one that can be usable.
  find-usable :
      (now h : ℕ) (sessions : List Session) (s : Session)
      → DistinctBy same_hash sessions
      → find (with_hash h) sessions ≡ some s
      → find (usable hash from_std now h) sessions
        ≡ (if usable hash from_std now h s then some s else none)
  unfolding find
  find-usable now h [] s d e = absurd (cc)
  find-usable now h (x ∷ rest) s d e = elim (Bool-cases (with_hash h x)) [
    | inl t ↦
        let is_s : x ≡ s = ground (arith, e, t) in
        let same : x.refresh_token_hash ≡ h = ground (arith, t) in
        let no_other =
          no_usable now h rest (subst (λ k. any (with_hash k) rest ≡ false) same d.0) in
        subst
          (λ (y : Session).
            find (usable hash from_std now h) (x ∷ rest)
            ≡ (if usable hash from_std now h y then some y else none))
          is_s (ground (arith, no_other))
    | inr f ↦ ground (arith, find-usable now h rest s d.1 (ground (arith, e, f)), f)
  ]

  unused_hash :
      (drawn : Drawn) (sessions : List Session)
      → IsUnused hash drawn sessions
      → any (with_hash (hash drawn.token)) sessions ≡ false
  unfolding any
  unused_hash drawn [] h = refl
  unused_hash drawn (s ∷ rest) h = ground (arith, h.0, unused_hash drawn rest h.1)

  find-any :
      (q : Session → Bool) (sessions : List Session)
      → any q sessions ≡ false
      → find q sessions ≡ none
  unfolding any find
  find-any q [] h = refl
  find-any q (s ∷ rest) h = ground (arith, find-any q rest)

  -- `get_active` answers from the row of the token's hash.
  get_active_at :
      (now : ℕ) (token : String) (sessions : List Session) (s : Session)
      → DistinctBy same_hash sessions
      → find (with_hash (hash token)) sessions ≡ some s
      → get_active hash from_std now token sessions
        ≡ (if usable hash from_std now (hash token) s then ok s else err not_found)
  unfolding get_active
  get_active_at now token sessions s d e =
      ground (arith, find-usable now (hash token) sessions s d e)

  rotate_at :
      (drawn : Drawn) (now : ℕ) (token : String) (ttl : ℕ) (sessions : List Session) (s : Session)
      → find (with_hash (hash token)) sessions ≡ some s
      → is_revoked s ≡ false
      → ltb s.expires_at now ≡ false
      → rotate hash from_std drawn now token ttl sessions ≡ (
        ok (record {
          session = rotated hash from_std drawn now ttl s;
          refresh_token_plain = drawn.token;
        }),
        update_where (λ t. t.id == s.id) (revoke now) sessions
            ++ rotated hash from_std drawn now ttl s ∷ [],
      )
  unfolding rotate rotate_row
  rotate_at drawn now token ttl sessions s e r l = ground arith

  new_usable :
      (drawn : Drawn) (now at ttl : ℕ) (old : Session) (sessions : List Session)
      → IsUnused hash drawn sessions
      → at < (rotated hash from_std drawn now ttl old).expires_at
      → get_active hash from_std at drawn.token (
          update_where (λ t. t.id == old.id) (revoke now) sessions
          ++ rotated hash from_std drawn now ttl old ∷ [])
        ≡ ok (rotated hash from_std drawn now ttl old)
  unfolding get_active rotated find
  new_usable drawn now at ttl old sessions unused live =
      let kept = update_where (λ t. t.id == old.id) (revoke now) sessions in
      let unused_now =
        any-update_where (with_hash (hash drawn.token)) (λ t. t.id == old.id) (revoke now) sessions
          (λ t. refl)
        ∙ unused_hash drawn sessions unused in
      ground (
        arith,
        find-append (usable hash from_std at (hash drawn.token)) kept
            (rotated hash from_std drawn now ttl old ∷ []),
        no_usable at (hash drawn.token) kept unused_now,
      )

  old_unusable :
      (drawn : Drawn) (now at ttl : ℕ) (token : String) (old : Session) (sessions : List Session)
      → IsStore sessions
      → IsUnused hash drawn sessions
      → find (with_hash (hash token)) sessions ≡ some old
      → get_active hash from_std at token (
          update_where (λ t. t.id == old.id) (revoke now) sessions
          ++ rotated hash from_std drawn now ttl old ∷ [])
        ≡ err not_found
  unfolding get_active rotated find
  old_unusable drawn now at ttl token old sessions store unused e =
      let kept = update_where (λ t. t.id == old.id) (revoke now) sessions in
      let at_old : find (with_hash (hash token)) kept ≡ some (revoke now old) =
        find-update_where (with_hash (hash token)) (λ t. t.id == old.id) (revoke now) sessions
          (λ t. refl)
        ∙ ap (Option.map (λ t. if t.id == old.id then revoke now t else t)) e
        ∙ ground arith in
      let distinct =
        DistinctBy-update_where same_hash (λ t. t.id == old.id) (revoke now) sessions (λ t u. refl)
          (λ t u. refl) store.hashes in
      let other =
        AllRows-at
          (λ t. ((t.id == drawn.id) ≡ false) × ((t.refresh_token_hash == hash drawn.token) ≡ false))
          sessions old unused (find-Among (with_hash (hash token)) sessions old e) in
      ground (
        arith,
        find-append (usable hash from_std at (hash token)) kept
            (rotated hash from_std drawn now ttl old ∷ []),
        find-usable at (hash token) kept (revoke now old) distinct at_old,
        find-passes (with_hash (hash token)) sessions old e,
        other.1,
      )

  -- A rotation that succeeds hands the session on: until it expires, the new token is answered with
  -- the session that was issued, and the old token is not found any more.
  pub rotate-get_active :
      (drawn : Drawn) (now at : ℕ) (token : String) (ttl : ℕ) (sessions : List Session)
      {issued : IssuedSession} {sessions' : List Session}
      → IsStore sessions
      → IsUnused hash drawn sessions
      → rotate hash from_std drawn now token ttl sessions ≡ (ok issued, sessions')
      → at < issued.session.expires_at
      → (get_active hash from_std at issued.refresh_token_plain sessions' ≡ ok issued.session)
        × (get_active hash from_std at token sessions' ≡ err not_found)
  rotate-get_active drawn now at token ttl sessions {issued} {sessions'} store unused h live =
      let r = rotate-Rotated hash from_std drawn now token ttl sessions h in
      let new = rotated hash from_std drawn now ttl r.old in
      let live' : at < new.expires_at =
        subst (λ (i : IssuedSession). at < i.session.expires_at) r.gives live in
      (
        ap (λ (i : IssuedSession). get_active hash from_std at i.refresh_token_plain sessions')
              r.gives
            ∙ ap (get_active hash from_std at drawn.token) r.leaves
            ∙ new_usable drawn now at ttl r.old sessions unused live'
            ∙ ap (λ (i : IssuedSession). ok i.session) (sym r.gives),
        ap (get_active hash from_std at token) r.leaves
            ∙ old_unusable drawn now at ttl token r.old sessions store unused r.found,
      )

  get_active_inv :
      (now : ℕ) (token : String) (sessions : List Session) (s : Session)
      → DistinctBy same_hash sessions
      → get_active hash from_std now token sessions ≡ ok s
      → (find (with_hash (hash token)) sessions ≡ some s)
        × (usable hash from_std now (hash token) s ≡ true)
  unfolding get_active
  get_active_inv now token sessions s d h =
      let q = usable hash from_std now (hash token) in
      elim (Option-cases (find q sessions)) [
        | inl n ↦ absurd (cc (h, n))
        | inr (t, f) ↦
            let is_s : t ≡ s = ground (arith, h, f) in
            let passes : q s ≡ true =
              subst (λ (u : Session). q u ≡ true) is_s (find-passes q sessions t f) in
            elim (Option-cases (find (with_hash (hash token)) sessions)) [
              | inl n ↦ absurd (
                  find_also q (with_hash (hash token)) sessions t f
                    (ground (arith, find-passes q sessions t f)) n)
              | inr (u, e) ↦
                  let is_u : u ≡ s =
                    ground (arith, find-usable now (hash token) sessions u d e, f, is_s) in
                  (e ∙ ap some is_u, passes)
            ]
      ]

  -- Where `get_active` finds a session the token can be rotated, and what is issued belongs to the
  -- same user and the same family.
  pub get_active-rotate :
      (drawn : Drawn) (now : ℕ) (token : String) (ttl : ℕ) (sessions : List Session) (s : Session)
      → IsStore sessions
      → get_active hash from_std now token sessions ≡ ok s
      → (issued : IssuedSession) × (sessions' : List Session) × (rotate hash from_std drawn now
            token ttl sessions
          ≡ (ok issued, sessions'))
        × (issued.session.user_id ≡ s.user_id)
        × (issued.session.family_id ≡ s.family_id)
  unfolding rotated
  get_active-rotate drawn now token ttl sessions s store h =
      let (e, passes) = get_active_inv now token sessions s store.hashes h in
      (
        record {
          session = rotated hash from_std drawn now ttl s;
          refresh_token_plain = drawn.token;
        },
        update_where (λ t. t.id == s.id) (revoke now) sessions
            ++ rotated hash from_std drawn now ttl s ∷ [],
        rotate_at drawn now token ttl sessions s e (ground (arith, passes))
            (ground (arith, passes)),
        refl,
        refl,
      )

  -- In the instant when a session expires the two operations disagree: `get_active` does not find it
  -- any more, and `rotate` still issues a new session for it.
  pub rotate_at_expiry :
      (drawn : Drawn) (token : String) (ttl : ℕ) (sessions : List Session) (s : Session)
      → IsStore sessions
      → find (with_hash (hash token)) sessions ≡ some s
      → is_revoked s ≡ false
      → let now = s.expires_at in
        (get_active hash from_std now token sessions ≡ err not_found)
        × ((rotate hash from_std drawn now token ttl sessions).0
            ≡ ok (record {
              session = rotated hash from_std drawn now ttl s;
              refresh_token_plain = drawn.token;
            }))
  rotate_at_expiry drawn token ttl sessions s store e r = (
    get_active_at s.expires_at token sessions s store.hashes e ∙ ground arith,
    ap (λ a. a.0) (rotate_at drawn s.expires_at token ttl sessions s e r (ground arith)),
  )
