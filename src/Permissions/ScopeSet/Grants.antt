-- ===== src/Permissions/ScopeSet/Grants.antt =====
-- crates/permissions/src/lib.rs: what a set grants after each way to build it.
use kit.Prelude.{
  Bool, true, false, not, none, some, String, List, [], ◌∷◌, ◌≡◌, refl, ap, ◌∙◌, ◌&&◌, ◌||◌, str_eq,
  eq_iff, if◌then◌else◌, any, filter, filter_map, arith, ok, err, Bool_eq, any_mono, any_elim,
  any-filter, any-filter_map,
}
use kit.Permissions.Scope.{Scope, staff_access, eq, all, parse, implies}
use kit.Permissions.Scope.Order.{implies_refl, implies_trans, eq_lem}
use kit.Permissions.ScopeSet.{
  ScopeSet, contains, hash_insert, extend, full_session, from_strings, wildcard_scan,
  from_strings_with_wildcard, has, require, insert, intersection,
}

any_of_contains :
    (p : Scope → Bool) (c : Scope) (xs : List Scope)
    → contains c xs ≡ true
    → p c ≡ true
    → any p xs ≡ true
unfolding contains
any_of_contains p c xs h k = any_mono (λ d. eq d c) p xs (λ d e. ap p (eq_lem d c e) ∙ k) h

pub any-hash_insert :
    (p : Scope → Bool) (c : Scope) (xs : List Scope) → any p (hash_insert c xs) ≡ (p c || any p xs)
unfolding hash_insert
any-hash_insert p c xs = ground (arith, any_of_contains p c xs)

pub any-extend :
    (p : Scope → Bool) (set cs : List Scope) → any p (extend set cs) ≡ (any p set || any p cs)
unfolding extend
any-extend p set [] = ground arith
any-extend p set (c ∷ cs) =
    ground (arith, any-extend p (hash_insert c set) cs, any-hash_insert p c set)

pub any-collect : (p : Scope → Bool) (cs : List Scope) → any p (extend [] cs) ≡ any p cs
unfolding any
any-collect p cs = any-extend p [] cs

-- A test that passes at some scope passes somewhere in `all`.
any-all : (p : Scope → Bool) (c : Scope) → p c ≡ true → any p all ≡ true
unfolding any all
any-all p staff_access h = ground arith
any-all p _ h = ground arith

-- A set grants all that is implied by what it grants.
pub has_down : (s : ScopeSet) (g c : Scope) → implies g c ≡ true → has s g ≡ true → has s c ≡ true
unfolding has
has_down s g c i =
    any_mono (λ d. implies d g) (λ d. implies d c) s.inner (λ d h. implies_trans d g c h i)

both : ScopeSet → ScopeSet → Scope → Bool
both s t c = if has s c then has t c else false

both_down :
    (s t : ScopeSet) (g c : Scope) → implies g c ≡ true → both s t g ≡ true → both s t c ≡ true
unfolding both
both_down s t g c i h = ground (arith, has_down s g c i, has_down t g c i)

any-both : (s t : ScopeSet) (c : Scope) → any (λ g. implies g c && both s t g) all ≡ both s t c
any-both s t c =
    Bool_eq _ _ (any_elim _ _ all (λ g h. both_down s t g c (ground arith) (ground arith)))
      (λ h. any-all _ c (ground (arith, implies_refl c)))

both_and : (s t : ScopeSet) (c : Scope) → both s t c ≡ (has s c && has t c)
unfolding both
both_and s t c = ground arith

-- An intersection grants a scope, directly or by implication, exactly when both sets grant it.
pub has-intersection :
    (s t : ScopeSet) (c : Scope) → has (intersection s t) c ≡ (has s c && has t c)
unfolding intersection has both
has-intersection s t c =
    any-collect (λ d. implies d c) (filter (both s t) all)
    ∙ any-filter (λ d. implies d c) (both s t) all
    ∙ any-both s t c
    ∙ both_and s t c

pub has-insert : (s : ScopeSet) (c d : Scope) → has (insert s c).set d ≡ (implies c d || has s d)
unfolding insert has
has-insert s c d = any-hash_insert (λ g. implies g d) c s.inner

pub has-full_session : (c : Scope) → has full_session c ≡ not (eq c staff_access)
unfolding has full_session any implies
has-full_session staff_access = refl
has-full_session _ = refl

-- What one string of a token grants.
abbrev pub grants : Scope → String → Bool
grants c s = elim (parse s) [ none ↦ false | some d ↦ implies d c ]

pub has-from_strings : (l : List String) (c : Scope) → has (from_strings l) c ≡ any (grants c) l
unfolding from_strings has
has-from_strings l c =
    any-collect (λ d. implies d c) (filter_map parse l) ∙ any-filter_map (λ d. implies d c) parse l

star_parses : (s : String) → str_eq s "*" ≡ true → parse s ≡ none
unfolding parse
star_parses s h = rw ((eq_iff s "*").0 h) refl

wildcard_scan_lem :
    (l : List String)
    → ((wildcard_scan l).wildcard ≡ any (λ s. str_eq s "*") l)
      × ((wildcard_scan l).kept ≡ filter_map parse l)
unfolding wildcard_scan any filter_map
wildcard_scan_lem [] = (refl, refl)
wildcard_scan_lem (s ∷ l) = ground (arith, star_parses s, wildcard_scan_lem l)

-- A set built with the wildcard grants a scope exactly when a listed string grants it, or "*" is
-- listed and the scope is not `staff_access`.
pub has-from_strings_with_wildcard :
    (l : List String) (c : Scope)
    → has (from_strings_with_wildcard l) c
      ≡ (any (grants c) l || (any (λ s. str_eq s "*") l && not (eq c staff_access)))
unfolding from_strings_with_wildcard has
has-from_strings_with_wildcard l c =
    let p = λ (d : Scope). implies d c in
    let (starred, keeps) = wildcard_scan_lem l in
    ground (
      arith,
      any-extend p (extend [] (wildcard_scan l).kept) full_session.inner,
      any-collect p (wildcard_scan l).kept,
      any-filter_map p parse l,
      has-full_session c,
      ap (any p) keeps,
    )

-- After an insert a set grants what it granted before and what the new scope implies, and no more;
-- `require` succeeds exactly on what is granted, and names the missing scope otherwise.
pub require-insert :
    (s : ScopeSet) (c d : Scope)
    → require (insert s c).set d
      ≡ (if implies c d || has s d then ok tt else err (record { missing = d }))
unfolding require
require-insert s c d = rw (has-insert s c d)

-- A full session has every scope but `staff_access`, which only an explicit insert adds.
pub full_session-insert :
    (c d : Scope) → has (insert full_session c).set d ≡ (implies c d || not (eq d staff_access))
full_session-insert c d = rw (has-insert full_session c d, has-full_session d)
