-- ===== src/Permissions/Examples.antt =====
-- crates/permissions/src/lib.rs: tests, and the theorems at concrete sets.
use kit.Prelude.{false, String, List, [], ◌∷◌, ◌≡◌, refl, ◌&&◌, any}
use kit.Prelude.Sort.{sort_by, insert_by, str_le}
use kit.Permissions.Scope.{
  staff_access, org_member, secrets_read, sites_admin, sites_write, sites_read, agents_run,
  tokens_manage, parse, as_str, implies,
}
use kit.Permissions.ScopeSet.{
  ScopeSet, extend, full_session, from_strings_with_wildcard, wildcard_scan, has, intersection,
  join, to_oidc_scope_string,
}
use kit.Permissions.ScopeSet.Grants.{has-intersection}

abbrev token : ScopeSet
token = record { inner = sites_admin ∷ tokens_manage ∷ [] }

abbrev role : ScopeSet
role = record { inner = sites_write ∷ [] }

has-intersection_example :
    has (intersection token role) sites_read ≡ (has token sites_read && has role sites_read)
has-intersection_example = has-intersection token role sites_read

abbrev listed : List String
listed = "secrets:read" ∷ "*" ∷ "garbage" ∷ []

abbrev three : ScopeSet
three = record { inner = secrets_read ∷ agents_run ∷ org_member ∷ [] }

oidc_test : to_oidc_scope_string three ≡ "agents:run org:member secrets:read"
unfolding to_oidc_scope_string join sort_by insert_by str_le as_str
oidc_test = refl

wildcard_test : has (from_strings_with_wildcard listed) staff_access ≡ false
unfolding from_strings_with_wildcard wildcard_scan extend parse has any implies full_session
wildcard_test = refl
