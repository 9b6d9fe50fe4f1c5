-- ===== src/Prelude/Sort/Distinct.antt =====
-- Sorting a list of distinct values by a strict order gives the same list whatever their order:
-- the values of a fixed sorted list that are members.
use mathlib.Core.Path.{◌≡◌, refl, sym, ap, ◌∙◌}
use mathlib.Core.Bool.{Bool, true, false, not, ◌&&◌, ◌||◌}
use mathlib.Core.List.{List, [], ◌∷◌}
use native.Mathlib.Omega.{arith}
use kit.Prelude.Lists.{any, filter}
use kit.Prelude.Sort.{insert_by, sort_by}

module _ {ℓ} {A : Type ℓ} (eq le : A → A → Bool) where
  unfoldable pub member : A → List A → Bool
  member c xs = any (λ d. eq d c) xs

  abbrev pub IsDistinct : List A → Type 0
  IsDistinct [] = Unit
  IsDistinct (c ∷ cs) = (any (λ d. eq d c) cs ≡ false) × IsDistinct cs

  -- `y` is strictly before every element of the list.
  unfoldable pub before : A → List A → Bool
  before y [] = true
  before y (z ∷ zs) = le y z && not (le z y) && before y zs

  abbrev pub IsStrict : List A → Type 0
  IsStrict [] = Unit
  IsStrict (y ∷ ys) = (before y ys ≡ true) × IsStrict ys

module _ {ℓ} {A : Type ℓ} (eq le : A → A → Bool) (eq_sound : (a b : A) → eq a b ≡ true → a ≡ b)
    (eq_sym : (a b : A) → eq a b ≡ eq b a) where
  before-any :
      (x y : A) (ys : List A)
      → before eq le y ys ≡ true
      → any (λ d. eq d x) ys ≡ true
      → le x y ≡ false
  unfolding before any
  before-any x y [] b h = cc
  before-any x y (z ∷ zs) b h = ground (arith, eq_sound z x, before-any x y zs)

  before_not_any : (x : A) (ys : List A) → before eq le x ys ≡ true → any (λ d. eq d x) ys ≡ false
  unfolding before any
  before_not_any x [] b = refl
  before_not_any x (z ∷ zs) b = ground (arith, eq_sound z x, before_not_any x zs)

  insert_by-before :
      (m : A → Bool) (x : A) (ys : List A)
      → before eq le x ys ≡ true
      → insert_by le x (filter m ys) ≡ x ∷ filter m ys
  unfolding before insert_by filter
  insert_by-before m x [] b = refl
  insert_by-before m x (z ∷ zs) b = ground (arith, insert_by-before m x zs)

  abbrev adding : A → (A → Bool) → A → Bool
  adding x m c = eq x c || m c

  filter-absent :
      (m : A → Bool) (x : A) (ys : List A)
      → any (λ d. eq d x) ys ≡ false
      → filter (adding x m) ys ≡ filter m ys
  unfolding any filter
  filter-absent m x [] h = refl
  filter-absent m x (z ∷ zs) h = ground (arith, eq_sym x z, filter-absent m x zs)

  insert_by-filter :
      (m : A → Bool) (x : A) (ys : List A)
      → IsStrict eq le ys
      → any (λ d. eq d x) ys ≡ true
      → m x ≡ false
      → insert_by le x (filter m ys) ≡ filter (adding x m) ys
  unfolding filter any insert_by
  insert_by-filter m x [] s h k = cc
  insert_by-filter m x (y ∷ ys) s h k = ground (
    arith,
    insert_by-filter m x ys s.1,
    insert_by-before m x ys,
    before_not_any x ys,
    before-any x y ys s.0,
    filter-absent m x ys,
    eq_sound y x,
    eq_sym x y,
  )

  filter-none : (ys : List A) → filter (λ c. false) ys ≡ []
  unfolding filter
  filter-none [] = refl
  filter-none (y ∷ ys) = filter-none ys

  -- The canonical form: `universe` is a strictly sorted list that holds every value.
  pub sort_by-canonical :
      (universe xs : List A)
      → IsStrict eq le universe
      → ((a : A) → any (λ d. eq d a) universe ≡ true)
      → IsDistinct eq le xs
      → sort_by le xs ≡ filter (λ c. any (λ d. eq d c) xs) universe
  unfolding sort_by any
  sort_by-canonical u [] s full d = sym (filter-none u)
  sort_by-canonical u (x ∷ xs) s full d =
      ap (insert_by le x) (sort_by-canonical u xs s full d.1)
      ∙ insert_by-filter (λ c. any (λ d. eq d c) xs) x u s (full x) d.0
