-- ===== src/Permissions/Scope.antt =====
-- crates/permissions/src/lib.rs: `Scope`, its wire form and the implication between scopes.
pub mod Order
use mathlib.Core.Path.{subst}
use kit.Prelude.{
  ◌↔◌, Bool, true, false, ◌≡◌, Option, none, some, String, List, [], ◌∷◌, refl, str_eq, eq_iff,
  arith, if◌then◌else◌,
}

pub data Scope : Type 0 where
  staff_access : Scope
  org_owner org_admin org_member org_billing org_auditor : Scope
  secrets_read secrets_write secrets_admin : Scope
  issues_read issues_write issues_admin : Scope
  sites_read sites_write sites_admin : Scope
  agents_read agents_run agents_admin : Scope
  tokens_manage : Scope

unfoldable pub Scope-discrete : Discrete Scope
Scope-discrete = hlevel

unfoldable pub as_str : Scope → String
as_str staff_access = "staff:access"
as_str org_owner = "org:owner"
as_str org_admin = "org:admin"
as_str org_member = "org:member"
as_str org_billing = "org:billing"
as_str org_auditor = "org:auditor"
as_str secrets_read = "secrets:read"
as_str secrets_write = "secrets:write"
as_str secrets_admin = "secrets:admin"
as_str issues_read = "issues:read"
as_str issues_write = "issues:write"
as_str issues_admin = "issues:admin"
as_str sites_read = "sites:read"
as_str sites_write = "sites:write"
as_str sites_admin = "sites:admin"
as_str agents_read = "agents:read"
as_str agents_run = "agents:run"
as_str agents_admin = "agents:admin"
as_str tokens_manage = "tokens:manage"

-- `match s { … }` on string literals: the arms are tried in order.
unfoldable pub parse : String → Option Scope
parse s =
    if str_eq s "staff:access"
    then some staff_access
    else if str_eq s "org:owner"
    then some org_owner
    else if str_eq s "org:admin"
    then some org_admin
    else if str_eq s "org:member"
    then some org_member
    else if str_eq s "org:billing"
    then some org_billing
    else if str_eq s "org:auditor"
    then some org_auditor
    else if str_eq s "secrets:read"
    then some secrets_read
    else if str_eq s "secrets:write"
    then some secrets_write
    else if str_eq s "secrets:admin"
    then some secrets_admin
    else if str_eq s "issues:read"
    then some issues_read
    else if str_eq s "issues:write"
    then some issues_write
    else if str_eq s "issues:admin"
    then some issues_admin
    else if str_eq s "sites:read"
    then some sites_read
    else if str_eq s "sites:write"
    then some sites_write
    else if str_eq s "sites:admin"
    then some sites_admin
    else if str_eq s "agents:read"
    then some agents_read
    else if str_eq s "agents:run"
    then some agents_run
    else if str_eq s "agents:admin"
    then some agents_admin
    else if str_eq s "tokens:manage"
    then some tokens_manage
    else none

unfoldable pub all : List Scope
all =
    staff_access ∷ org_owner ∷ org_admin ∷ org_member ∷ org_billing ∷ org_auditor ∷ secrets_read
    ∷ secrets_write ∷ secrets_admin ∷ issues_read ∷ issues_write ∷ issues_admin ∷ sites_read
    ∷ sites_write ∷ sites_admin ∷ agents_read ∷ agents_run ∷ agents_admin ∷ tokens_manage ∷ []

-- `self == other`, the derived `PartialEq`.
abbrev pub eq : Scope → Scope → Bool
eq a b = elim (Scope-discrete a b) [ yes p ↦ true | no p ↦ false ]

-- The `matches!` of `implies`.
unfoldable pub implies_arm : Scope → Scope → Bool
implies_arm secrets_admin secrets_write = true
implies_arm secrets_admin secrets_read = true
implies_arm secrets_write secrets_read = true
implies_arm issues_admin issues_write = true
implies_arm issues_admin issues_read = true
implies_arm issues_write issues_read = true
implies_arm sites_admin sites_write = true
implies_arm sites_admin sites_read = true
implies_arm sites_write sites_read = true
implies_arm agents_admin agents_run = true
implies_arm agents_admin agents_read = true
implies_arm agents_run agents_read = true
implies_arm org_owner org_admin = true
implies_arm org_owner org_member = true
implies_arm org_owner org_billing = true
implies_arm org_owner org_auditor = true
implies_arm org_admin org_member = true
implies_arm org_admin org_auditor = true
implies_arm _ _ = false

unfoldable pub implies : Scope → Scope → Bool
unfolding implies_arm Scope-discrete
implies self other = if eq self other then true else implies_arm self other

parse-as_str : (s : Scope) → parse (as_str s) ≡ some s
unfolding parse as_str
parse-as_str staff_access = refl
parse-as_str _ = refl

module _ (s : String) (d : Scope) where
  -- One arm of the `match`.
  arm :
      (c : Scope) {rest : Option Scope}
      → (rest ≡ some d → as_str d ≡ s)
      → (if str_eq s (as_str c) then some c else rest) ≡ some d
      → as_str d ≡ s
  arm c k h = ground (arith, eq_iff s (as_str c), k)

  as_str-parse : parse s ≡ some d → as_str d ≡ s
  unfolding parse as_str
  as_str-parse = arm staff_access (
      arm org_owner (
        arm org_admin (
          arm org_member (
            arm org_billing (
              arm org_auditor (
                arm secrets_read (
                  arm secrets_write (
                    arm secrets_admin (
                      arm issues_read (
                        arm issues_write (
                          arm issues_admin (
                            arm sites_read (
                              arm sites_write (
                                arm sites_admin (
                                  arm agents_read (
                                    arm agents_run (
                                      arm agents_admin
                                        (arm tokens_manage (λ h. cc)))))))))))))))))))

-- The wire form and the parser agree: a string parses to a scope exactly when it is that scope's
-- wire form.
pub parse_iff : (s : String) (d : Scope) → (parse s ≡ some d) ↔ (as_str d ≡ s)
parse_iff s d = (as_str-parse s d, λ e. subst (λ t. parse t ≡ some d) e (parse-as_str d))
