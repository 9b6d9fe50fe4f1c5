-- ===== src/Permissions/Scope/Order.antt =====
-- crates/permissions/src/lib.rs: `implies` is a partial order. The table has 19 scopes, so facts
-- about two or three scopes are checked at all of them.
use kit.Prelude.{Bool, true, ◌≡◌, refl, List, [], ◌∷◌, ◌&&◌, ◌||◌, not, arith}
use kit.Permissions.Scope.{Scope, staff_access, all, eq, implies}

-- A test that passes at every scope.
unfoldable pub every : (Scope → Bool) → List Scope → Bool
every p [] = true
every p (c ∷ cs) = p c && every p cs

pub every-at : (p : Scope → Bool) → every p all ≡ true → (c : Scope) → p c ≡ true
unfolding every all
every-at p h staff_access = ground arith
every-at p h _ = ground arith

pub eq_lem : (a b : Scope) → eq a b ≡ true → a ≡ b
eq_lem a b h = ground arith

pub implies_refl : (a : Scope) → implies a a ≡ true
unfolding implies
implies_refl staff_access = refl
implies_refl _ = refl

trans_at : Scope → Scope → Scope → Bool
unfolding implies
trans_at a b c = not (implies a b && implies b c) || implies a c

trans_table : every (λ a. every (λ b. every (trans_at a b) all) all) all ≡ true
unfolding every all trans_at
trans_table = refl

pub implies_trans : (a b c : Scope) → implies a b ≡ true → implies b c ≡ true → implies a c ≡ true
implies_trans a b c h k =
    let at_a = every-at (λ a. every (λ b. every (trans_at a b) all) all) trans_table a in
    let at_b = every-at (λ b. every (trans_at a b) all) at_a b in
    let at_c = every-at (trans_at a b) at_b c in unfold trans_at in ground (arith, at_c)

antisymm_at : Scope → Scope → Bool
unfolding implies
antisymm_at a b = not (implies a b && implies b a) || eq a b

antisymm_table : every (λ a. every (antisymm_at a) all) all ≡ true
unfolding every all antisymm_at
antisymm_table = refl

pub implies_antisymm : (a b : Scope) → implies a b ≡ true → implies b a ≡ true → a ≡ b
implies_antisymm a b h k =
    let at_a = every-at (λ a. every (antisymm_at a) all) antisymm_table a in
    let at_b = every-at (antisymm_at a) at_a b in
    eq_lem a b (unfold antisymm_at in ground (arith, at_b))

-- Implication is a partial order on scopes: reflexive, transitive, and antisymmetric.
pub implies_order :
    (a b c : Scope)
    → (implies a a ≡ true)
      × (implies a b ≡ true → implies b c ≡ true → implies a c ≡ true)
      × (implies a b ≡ true → implies b a ≡ true → a ≡ b)
implies_order a b c = (implies_refl a, implies_trans a b c, implies_antisymm a b)
