-- ===== src/Prelude/Sort/Stable.antt =====
-- Sorting a list that is sorted but for its last element: the stable place of the new one.
use mathlib.Core.Path.{◌≡◌, refl}
use mathlib.Core.Bool.{Bool, true, false}
use mathlib.Core.List.{List, [], ◌∷◌, ◌++◌}
use native.Mathlib.Omega.{arith}
use kit.Prelude.Tests.{if◌then◌else◌}
use kit.Prelude.Sort.{insert_by, sort_by}

-- `x` is at most every element.
abbrev pub LeAll {ℓ} : {A : Type ℓ} → (A → A → Bool) → A → List A → Type 0
LeAll le x [] = Unit
LeAll le x (y ∷ ys) = (le x y ≡ true) × LeAll le x ys

abbrev pub IsSorted {ℓ} : {A : Type ℓ} → (A → A → Bool) → List A → Type 0
IsSorted le [] = Unit
IsSorted le (x ∷ xs) = LeAll le x xs × IsSorted le xs

-- Behind every element that is at most `x`.
unfoldable pub place {ℓ} : {A : Type ℓ} → (A → A → Bool) → A → List A → List A
place le x [] = x ∷ []
place le x (y ∷ ys) = let rest = place le x ys in if le y x then y ∷ rest else x ∷ y ∷ ys

module _ {ℓ} {A : Type ℓ} (le : A → A → Bool) (total : (a b : A) → le a b ≡ false → le b a ≡ true)
    (trans : (a b c : A) → le a b ≡ true → le b c ≡ true → le a c ≡ true) where
  LeAll-trans : (x y : A) (ys : List A) → le x y ≡ true → LeAll le y ys → LeAll le x ys
  LeAll-trans x y [] h k = tt
  LeAll-trans x y (z ∷ zs) h k = (trans x y z h k.0, LeAll-trans x y zs h k.1)

  insert_by-LeAll : (x : A) (ys : List A) → LeAll le x ys → insert_by le x ys ≡ x ∷ ys
  unfolding insert_by
  insert_by-LeAll x [] h = refl
  insert_by-LeAll x (y ∷ ys) h = ground arith

  LeAll-place : (y x : A) (ys : List A) → le y x ≡ true → LeAll le y ys → LeAll le y (place le x ys)
  unfolding place
  LeAll-place y x [] h k = (h, tt)
  LeAll-place y x (z ∷ zs) h k = ground (arith, LeAll-place y x zs h k.1)

  pub place-IsSorted : (x : A) (xs : List A) → IsSorted le xs → IsSorted le (place le x xs)
  unfolding place
  place-IsSorted x [] h = (tt, tt)
  place-IsSorted x (y ∷ ys) h =
      ground (arith, place-IsSorted x ys h.1, LeAll-place y x ys, total y x, LeAll-trans x y ys)

  place_front : (y x : A) (ys : List A) → le y x ≡ false → LeAll le y ys → place le x ys ≡ x ∷ ys
  unfolding place
  place_front y x [] h k = refl
  place_front y x (z ∷ zs) h k = ground (arith, trans y z x)

  pub sort_by-append :
      (xs : List A) (x : A) → IsSorted le xs → sort_by le (xs ++ x ∷ []) ≡ place le x xs
  unfolding sort_by insert_by place
  sort_by-append [] x h = refl
  sort_by-append (y ∷ ys) x h = rw (sort_by-append ys x h.1) (
      ground (
        arith,
        insert_by-LeAll y (place le x ys),
        LeAll-place y x ys,
        place_front y x ys,
        insert_by-LeAll y ys,
      ))

  -- Two elements of different rank are placed in either order with one result.
  pub place_comm :
      (a b : A) (xs : List A)
      → le b a ≡ false
      → place le a (place le b xs) ≡ place le b (place le a xs)
  unfolding place
  place_comm a b [] h = ground (arith, total b a)
  place_comm a b (y ∷ ys) h = ground (arith, place_comm a b ys, total b a, trans y a b)
