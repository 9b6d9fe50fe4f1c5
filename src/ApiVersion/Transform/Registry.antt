-- ===== src/ApiVersion/Transform/Registry.antt =====
-- crates/api-version/src/transform.rs: the registry is in chronological order, whatever the order
-- of registration.
use kit.Prelude.{true, false, not, List, [], ◌∷◌, ◌≡◌, ◌∙◌, sym, ap, arith}
use kit.Prelude.Sort.Stable.{IsSorted, place, sort_by-append, place-IsSorted, place_comm}
use kit.ApiVersion.Version.{ApiVersion, version_lt, version_le}
use kit.ApiVersion.Transform.{Transform, TransformRegistry, new, by_version, with}

version_total : (a b : ApiVersion) → version_le a b ≡ false → version_le b a ≡ true
unfolding version_lt
version_total a b h = ground arith

version_trans :
    (a b c : ApiVersion) → version_le a b ≡ true → version_le b c ≡ true → version_le a c ≡ true
unfolding version_lt
version_trans a b c h k = ground arith

module _ {Value Method : Type 0} where
  abbrev pub IsChronological : TransformRegistry Value Method → Type 0
  IsChronological r = IsSorted by_version r.transforms

  total : (a b : Transform Value Method) → by_version a b ≡ false → by_version b a ≡ true
  total a b = version_total a.version b.version

  trans :
      (a b c : Transform Value Method)
      → by_version a b ≡ true
      → by_version b c ≡ true
      → by_version a c ≡ true
  trans a b c = version_trans a.version b.version c.version

  transforms-with :
      (r : TransformRegistry Value Method) (t : Transform Value Method)
      → IsChronological r
      → (with r t).transforms ≡ place by_version t r.transforms
  unfolding with
  transforms-with r t h = sort_by-append by_version total trans r.transforms t h

  with-IsChronological :
      (r : TransformRegistry Value Method) (t : Transform Value Method)
      → IsChronological r
      → IsChronological (with r t)
  with-IsChronological r t h =
      rw (transforms-with r t h) (place-IsSorted by_version total trans t r.transforms h)

  -- `TransformRegistry::new().with(t1).with(t2)…`.
  unfoldable pub registered :
      TransformRegistry Value Method
      → List (Transform Value Method)
      → TransformRegistry Value Method
  registered r [] = r
  registered r (t ∷ ts) = registered (with r t) ts

  registered_from :
      (r : TransformRegistry Value Method) (ts : List (Transform Value Method))
      → IsChronological r
      → IsChronological (registered r ts)
  unfolding registered
  registered_from r [] h = h
  registered_from r (t ∷ ts) h = registered_from (with r t) ts (with-IsChronological r t h)

  -- Whatever transforms are registered, and in whatever order, the registry stands in chronological
  -- order, the older versions first.
  pub registered-IsChronological :
      (ts : List (Transform Value Method)) → IsChronological (registered new ts)
  registered-IsChronological ts = registered_from new ts tt

  with_comm_at :
      (r : TransformRegistry Value Method) (s t : Transform Value Method)
      → IsChronological r
      → version_lt s.version t.version ≡ true
      → (with (with r s) t).transforms ≡ (with (with r t) s).transforms
  with_comm_at r s t h lt =
      transforms-with (with r s) t (with-IsChronological r s h)
      ∙ ap (place by_version t) (transforms-with r s h)
      ∙ sym (place_comm by_version total trans s t r.transforms (ap not lt))
      ∙ ap (place by_version s) (sym (transforms-with r t h))
      ∙ sym (transforms-with (with r t) s (with-IsChronological r t h))

  -- Two transforms of different versions can be registered in either order, at any point: the
  -- registry that the following registrations give is the same.
  pub registered_comm :
      (before after : List (Transform Value Method)) (s t : Transform Value Method)
      → version_lt s.version t.version ≡ true
      → registered (with (with (registered new before) s) t) after
        ≡ registered (with (with (registered new before) t) s) after
  registered_comm before after s t lt =
      ap (λ l. registered (record { transforms = l }) after)
        (with_comm_at (registered new before) s t (registered-IsChronological before) lt)
