-- ===== src/ApiVersion/Transform/Walk.antt =====
-- crates/api-version/src/transform.rs: laws of the two walks.
use kit.Prelude.{
  true, false, String, List, [], ◌∷◌, ◌++◌, ◌≡◌, ◌∙◌, refl, sym, ap, arith, inl, inr, reverse, any,
  if◌then◌else◌, filter, Bool-cases,
}
use mathlib.Core.List.{reverse-cons}
use kit.Prelude.Sort.Stable.{LeAll, IsSorted}
use kit.ApiVersion.Version.{ApiVersion, version_lt, version_le}
use kit.ApiVersion.Transform.Registry.{IsChronological}
use kit.ApiVersion.Transform.{
  Transform, TransformRegistry, is_due, downgrade_loop, downgrade_response, upgrade_loop,
  upgrade_request, touches, by_version,
}

lt_le : (a b c : ApiVersion) → version_lt a b ≡ true → version_le b c ≡ true → version_lt a c ≡ true
unfolding version_lt
lt_le a b c h k = ground arith

le_lt : (a b c : ApiVersion) → version_le a b ≡ true → version_lt b c ≡ true → version_lt a c ≡ true
unfolding version_lt
le_lt a b c h k = ground arith

-- Each transform's upgrade undoes its downgrade.
abbrev pub Undoes : {Value Method : Type 0} → List (Transform Value Method) → Type 0
Undoes [] = Unit
Undoes {Value} (t ∷ ts) = ((v : Value) → t.upgrade_request (t.downgrade_response v) ≡ v) × Undoes ts

-- The changes up to a version.
unfoldable pub up_to :
    {Value Method : Type 0}
    → ApiVersion
    → List (Transform Value Method)
    → List (Transform Value Method)
up_to q ts = filter (λ t. version_le t.version q) ts

module _ {Value Method : Type 0} (route : String) (method : Method) where
  abbrev down : ApiVersion → Transform Value Method → Value → Value
  down p t body = if is_due p route method t then t.downgrade_response body else body

  abbrev up : ApiVersion → Transform Value Method → Value → Value
  up p t body = if is_due p route method t then t.upgrade_request body else body

  up-down :
      (p : ApiVersion) (t : Transform Value Method) (body : Value)
      → ((v : Value) → t.upgrade_request (t.downgrade_response v) ≡ v)
      → up p t (down p t body) ≡ body
  up-down p t body h = ground (arith, h body)

  downgrade_loop-append :
      (p : ApiVersion) (ts us : List (Transform Value Method)) (body : Value)
      → downgrade_loop p route method (ts ++ us) body
        ≡ downgrade_loop p route method us (downgrade_loop p route method ts body)
  unfolding downgrade_loop
  downgrade_loop-append p [] us body = refl
  downgrade_loop-append p (t ∷ ts) us body = downgrade_loop-append p ts us (down p t body)

  -- The walk over a reversed list undoes the head last.
  downgrade_cons :
      (p : ApiVersion) (t : Transform Value Method) (ts : List (Transform Value Method))
      (body : Value)
      → downgrade_loop p route method (reverse (t ∷ ts)) body
        ≡ down p t (downgrade_loop p route method (reverse ts) body)
  unfolding downgrade_loop
  downgrade_cons p t ts body =
      ap (λ l. downgrade_loop p route method l body) (reverse-cons t ts)
      ∙ downgrade_loop-append p (reverse ts) (t ∷ []) body

  loop_roundtrip :
      (p : ApiVersion) (ts : List (Transform Value Method)) (body : Value)
      → Undoes ts
      → upgrade_loop p route method ts (downgrade_loop p route method (reverse ts) body) ≡ body
  unfolding upgrade_loop
  loop_roundtrip p [] body h = unfold downgrade_loop in refl
  loop_roundtrip p (t ∷ ts) body h =
      let below = downgrade_loop p route method (reverse ts) body in
      ap (λ b. upgrade_loop p route method ts (up p t b)) (downgrade_cons p t ts body)
      ∙ ap (upgrade_loop p route method ts) (up-down p t below h.0)
      ∙ loop_roundtrip p ts body h.1

  -- If each registered transform's upgrade undoes its downgrade, a body that is walked down to a pin
  -- and up again comes back as it was, at every pin.
  pub upgrade-downgrade :
      (r : TransformRegistry Value Method) (p : ApiVersion) (body : Value)
      → Undoes r.transforms
      → upgrade_request r p route method (downgrade_response r p route method body) ≡ body
  unfolding upgrade_request downgrade_response
  upgrade-downgrade r p body h = loop_roundtrip p r.transforms body h

  due_none :
      (p : ApiVersion) (ts : List (Transform Value Method)) (body : Value)
      → any (is_due p route method) ts ≡ false
      → (downgrade_loop p route method (reverse ts) body ≡ body)
        × (upgrade_loop p route method ts body ≡ body)
  unfolding any upgrade_loop
  due_none p [] body h = (unfold downgrade_loop in refl, refl)
  due_none p (t ∷ ts) body h = ground (arith, downgrade_cons p t ts body, due_none p ts body)

  -- Where `touches` is false neither walk changes any body, so the layer may skip both.
  pub untouched :
      (r : TransformRegistry Value Method) (p : ApiVersion) (body : Value)
      → touches r p route method ≡ false
      → (downgrade_response r p route method body ≡ body)
        × (upgrade_request r p route method body ≡ body)
  unfolding touches upgrade_request downgrade_response
  untouched r p body h = due_none p r.transforms body h

  up_to_none :
      (q : ApiVersion) (t : Transform Value Method) (ts : List (Transform Value Method))
      → LeAll by_version t ts
      → version_lt q t.version ≡ true
      → up_to q ts ≡ []
  unfolding up_to filter
  up_to_none q t [] h lt = refl
  up_to_none q t (u ∷ us) h lt =
      ground (arith, up_to_none q t us h.1, lt_le q t.version u.version lt h.0)

  abbrev walk : ApiVersion → List (Transform Value Method) → Value → Value
  walk p ts body = downgrade_loop p route method (reverse ts) body

  walk_nil : (p : ApiVersion) (body : Value) → walk p [] body ≡ body
  unfolding downgrade_loop
  walk_nil p body = refl

  module _ (p q : ApiVersion) (t : Transform Value Method) (ts : List (Transform Value Method))
      (body : Value) (ih : walk p ts body ≡ walk p (up_to q ts) (walk q ts body)) where
    walk_newer :
        LeAll by_version t ts
        → version_le p q ≡ true
        → version_lt q t.version ≡ true
        → walk p (t ∷ ts) body ≡ walk p (up_to q (t ∷ ts)) (walk q (t ∷ ts) body)
    walk_newer s le lt =
        let w : Value = walk q ts body in
        let none_left : up_to q ts ≡ [] = up_to_none q t ts s lt in
        let dropped : up_to q (t ∷ ts) ≡ [] = unfold up_to filter in ground (arith, none_left) in
        downgrade_cons p t ts body
        ∙ ap (down p t) (ih ∙ ap (λ l. walk p l w) none_left ∙ walk_nil p w)
        ∙ ground (arith, le_lt p q t.version)
        ∙ sym (downgrade_cons q t ts body)
        ∙ sym (walk_nil p (walk q (t ∷ ts) body))
        ∙ ap (λ l. walk p l (walk q (t ∷ ts) body)) (sym dropped)

    walk_older :
        version_lt q t.version ≡ false
        → walk p (t ∷ ts) body ≡ walk p (up_to q (t ∷ ts)) (walk q (t ∷ ts) body)
    walk_older ge =
        let kept : up_to q (t ∷ ts) ≡ t ∷ up_to q ts = unfold up_to filter in ground arith in
        let same : walk q (t ∷ ts) body ≡ walk q ts body =
          downgrade_cons q t ts body ∙ ground arith in
        downgrade_cons p t ts body
        ∙ ap (down p t) ih
        ∙ sym (downgrade_cons p t (up_to q ts) (walk q ts body))
        ∙ ap (λ l. walk p l (walk q ts body)) (sym kept)
        ∙ ap (walk p (up_to q (t ∷ ts))) (sym same)

  walk_through :
      (p q : ApiVersion) (ts : List (Transform Value Method)) (body : Value)
      → IsSorted by_version ts
      → version_le p q ≡ true
      → walk p ts body ≡ walk p (up_to q ts) (walk q ts body)
  walk_through p q [] body s le = unfold up_to filter downgrade_loop in refl
  walk_through p q (t ∷ ts) body s le =
      let ih = walk_through p q ts body s.1 le in
      elim (Bool-cases (version_lt q t.version)) [
        | inl lt ↦ walk_newer p q t ts body ih s.0 le lt
        | inr ge ↦ walk_older p q t ts body ih ge
      ]

  -- In a chronological registry the walk passes through every shape in between: what a client
  -- pinned at `p` is served is what one pinned at a later `q` is served, walked on from there to
  -- `p` by the changes up to `q` alone.
  pub downgrade_through :
      (r : TransformRegistry Value Method) (p q : ApiVersion) (body : Value)
      → IsChronological r
      → version_le p q ≡ true
      → downgrade_response r p route method body
        ≡ downgrade_response
            (record { transforms = up_to q r.transforms })
            p
            route
            method
            (downgrade_response r q route method body)
  unfolding downgrade_response
  downgrade_through r p q body s le = walk_through p q r.transforms body s le
