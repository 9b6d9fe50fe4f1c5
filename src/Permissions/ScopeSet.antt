-- ===== src/Permissions/ScopeSet.antt =====
-- crates/permissions/src/lib.rs: `ScopeSet` and its operations. The `HashSet` is a list in which
-- `insert` never puts a scope twice; its order is not observable, see Iter.
pub mod Grants
pub mod Iter
use kit.Prelude.{
  Bool, true, false, not, Option, none, some, String, List, [], ◌∷◌, str_eq, if◌then◌else◌, any,
  filter, filter_map, map, Result, ok, err,
}
use Prim.Native.String.{◌++◌ as str_append}
use kit.Prelude.Sort.{str_le, sort_by}
use kit.Permissions.Scope.{Scope, staff_access, eq, all, as_str, parse, implies, Scope-discrete}

pub record ScopeSet : Type 0 where
  pub inner : List Scope

unfoldable pub contains : Scope → List Scope → Bool
unfolding any Scope-discrete
contains c = any (λ d. eq d c)

-- `HashSet::insert`: true if the scope was not there.
unfoldable pub hash_insert : Scope → List Scope → List Scope
unfolding contains
hash_insert c xs = if contains c xs then xs else c ∷ xs

-- `HashSet::extend`, and `collect` from the empty set.
unfoldable pub extend : List Scope → List Scope → List Scope
unfolding hash_insert
extend set [] = set
extend set (c ∷ cs) = extend (hash_insert c set) cs

abbrev pub empty : ScopeSet
empty = record { inner = [] }

unfoldable pub full_session : ScopeSet
unfolding extend filter all Scope-discrete
full_session = record { inner = extend [] (filter (λ c. not (eq c staff_access)) all) }

unfoldable pub from_strings : List String → ScopeSet
from_strings scopes = record { inner = extend [] (filter_map parse scopes) }

-- The closure of `filter_map`, with the flag that it captures: the flag comes back with the
-- scopes that were kept.
unfoldable pub wildcard_scan : List String → record { wildcard : Bool; kept : List Scope }
wildcard_scan [] = record { wildcard = false; kept = [] }
wildcard_scan (s ∷ rest) =
    let r = wildcard_scan rest in
    if str_eq s "*"
    then record { wildcard = true; kept = r.kept }
    else elim (parse s) [ none ↦ r | some c ↦ record { wildcard = r.wildcard; kept = c ∷ r.kept } ]

unfoldable pub from_strings_with_wildcard : List String → ScopeSet
from_strings_with_wildcard scopes =
    let r = wildcard_scan scopes in
    let parsed = extend [] r.kept in
    record { inner = if r.wildcard then extend parsed full_session.inner else parsed }

unfoldable pub has : ScopeSet → Scope → Bool
has set scope = any (λ granted. implies granted scope) set.inner

pub record AccessDenied : Type 0 where
  pub missing : Scope

unfoldable pub require : ScopeSet → Scope → Result AccessDenied (Unit {0})
unfolding has
require set scope = if has set scope then ok tt else err (record { missing = scope })

unfoldable pub insert : ScopeSet → Scope → record { set : ScopeSet; fresh : Bool }
unfolding hash_insert
insert set scope = record {
  set = record { inner = hash_insert scope set.inner };
  fresh = not (contains scope set.inner);
}

unfoldable pub intersection : ScopeSet → ScopeSet → ScopeSet
intersection self other = record {
  inner = extend [] (filter (λ scope. if has self scope then has other scope else false) all);
}

-- `sort_by_key(|s| s.as_str())`.
unfoldable pub key_le : Scope → Scope → Bool
unfolding str_le as_str
key_le a b = str_le (as_str a) (as_str b)

unfoldable pub iter : ScopeSet → List Scope
iter set = sort_by (λ a b. str_le (as_str a) (as_str b)) set.inner

-- `parts.join(" ")`.
unfoldable pub join : List String → String
join [] = ""
join (s ∷ []) = s
join (s ∷ rest) = str_append s (str_append " " (join rest))

unfoldable pub to_oidc_scope_string : ScopeSet → String
to_oidc_scope_string set = join (sort_by str_le (map as_str set.inner))
