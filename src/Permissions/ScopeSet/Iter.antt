-- ===== src/Permissions/ScopeSet/Iter.antt =====
-- crates/permissions/src/lib.rs: the order of `iter` and of the OIDC scope string does not depend
-- on the hash order or on the order of insertion.
use kit.Prelude.{
  Bool, true, false, not, List, [], ◌∷◌, ◌≡◌, refl, ap, sym, ◌∙◌, if◌then◌else◌, any, filter,
  filter_map, map, arith, Bool_eq, String,
}
use mathlib.Core.Path.{fun_ext}
use kit.Prelude.Sort.Distinct
use kit.Prelude.Sort.Distinct.{IsStrict, before, sort_by-canonical}
use kit.Prelude.Sort.{str_le, insert_by, sort_by, map-sort_by}
use kit.Permissions.Scope.{Scope, staff_access, eq, all, as_str, parse, Scope-discrete}
use kit.Permissions.Scope.Order.{eq_lem}
use kit.Permissions.ScopeSet.{
  ScopeSet, contains, hash_insert, extend, wildcard_scan, full_session, from_strings,
  from_strings_with_wildcard, insert, has, intersection, key_le, iter, join, to_oidc_scope_string,
}

-- The invariant of a hash set: no scope twice.
abbrev pub IsDistinct : List Scope → Type 0
IsDistinct = Distinct.IsDistinct eq key_le

pub hash_insert-IsDistinct :
    (c : Scope) (xs : List Scope) → IsDistinct xs → IsDistinct (hash_insert c xs)
unfolding hash_insert contains
hash_insert-IsDistinct c xs h = ground arith

pub extend-IsDistinct : (set cs : List Scope) → IsDistinct set → IsDistinct (extend set cs)
unfolding extend
extend-IsDistinct set [] h = h
extend-IsDistinct set (c ∷ cs) h =
    extend-IsDistinct (hash_insert c set) cs (hash_insert-IsDistinct c set h)

pub ordered : List Scope
unfolding all key_le sort_by insert_by
ordered = sort_by key_le all

ordered-IsStrict : IsStrict eq key_le ordered
unfolding ordered before Scope-discrete
ordered-IsStrict = (
  refl,
  (
    refl,
    (
      refl,
      (
        refl,
        (
          refl,
          (
            refl,
            (
              refl,
              (
                refl,
                (
                  refl,
                  (
                    refl,
                    (refl, (refl, (refl, (refl, (refl, (refl, (refl, (refl, (refl, tt))))))))),
                  ),
                ),
              ),
            ),
          ),
        ),
      ),
    ),
  ),
)

ordered_full : (a : Scope) → any (λ d. eq d a) ordered ≡ true
unfolding ordered any Scope-discrete
ordered_full staff_access = refl
ordered_full _ = refl

eq_sym : (a b : Scope) → eq a b ≡ eq b a
eq_sym a b =
    Bool_eq (eq a b) (eq b a) (λ h. eq_self (sym (eq_lem a b h)))
      (λ h. eq_self (sym (eq_lem b a h)))
  where
    eq_self : {x y : Scope} → x ≡ y → eq x y ≡ true
    eq_self p = ground arith

-- `iter` is the sorted list of all scopes, less those that the set does not hold.
pub iter_canonical :
    (s : ScopeSet) → IsDistinct s.inner → iter s ≡ filter (λ c. contains c s.inner) ordered
unfolding iter contains key_le
iter_canonical s h =
    sort_by-canonical eq key_le eq_lem eq_sym ordered s.inner ordered-IsStrict ordered_full h

pub iter-eq :
    (s t : ScopeSet)
    → IsDistinct s.inner
    → IsDistinct t.inner
    → ((c : Scope) → contains c s.inner ≡ contains c t.inner)
    → iter s ≡ iter t
iter-eq s t hs ht same =
    iter_canonical s hs ∙ ap (λ m. filter m ordered) (fun_ext same) ∙ sym (iter_canonical t ht)

oidc_of_iter : (s : ScopeSet) → to_oidc_scope_string s ≡ join (map as_str (iter s))
unfolding to_oidc_scope_string iter
oidc_of_iter s = ap join (sym (map-sort_by as_str str_le s.inner))

-- Two sets with the same members, each without repeats, have the same OIDC scope string: the hash
-- order and the order of insertion do not show.
pub to_oidc_scope_string-eq :
    (s t : ScopeSet)
    → IsDistinct s.inner
    → IsDistinct t.inner
    → ((c : Scope) → contains c s.inner ≡ contains c t.inner)
    → to_oidc_scope_string s ≡ to_oidc_scope_string t
unfolding to_oidc_scope_string
to_oidc_scope_string-eq s t hs ht same =
    oidc_of_iter s ∙ ap (λ l. join (map as_str l)) (iter-eq s t hs ht same) ∙ sym (oidc_of_iter t)

pub insert-IsDistinct :
    (s : ScopeSet) (c : Scope) → IsDistinct s.inner → IsDistinct (insert s c).set.inner
unfolding insert
insert-IsDistinct s c h = hash_insert-IsDistinct c s.inner h

-- The constructors and the intersection never hold a scope twice.
pub built-IsDistinct :
    (l : List String) (s t : ScopeSet)
    → IsDistinct full_session.inner
      × IsDistinct (from_strings l).inner
      × IsDistinct (from_strings_with_wildcard l).inner
      × IsDistinct (intersection s t).inner
unfolding full_session from_strings from_strings_with_wildcard intersection
built-IsDistinct l s t = (
  extend-IsDistinct [] (filter (λ c. not (eq c staff_access)) all) tt,
  extend-IsDistinct [] (filter_map parse l) tt,
  wildcard (wildcard_scan l).wildcard,
  extend-IsDistinct [] (filter (λ c. if has s c then has t c else false) all) tt,
)
  where
    parsed : List Scope
    parsed = extend [] (wildcard_scan l).kept

    parsed-IsDistinct : IsDistinct parsed
    parsed-IsDistinct = extend-IsDistinct [] (wildcard_scan l).kept tt

    wildcard : (b : Bool) → IsDistinct (if b then extend parsed full_session.inner else parsed)
    wildcard true = extend-IsDistinct parsed full_session.inner parsed-IsDistinct
    wildcard false = parsed-IsDistinct
