-- ===== src/Prelude/Sort.antt =====
-- Rust's stable `sort_by_key`, as an insertion sort, and the byte order of texts.
pub mod Distinct
pub mod Stable
use Prim.Native.Nat.{ℕ}
use Prim.Native.Char.{code}
use Prim.Native.String
use Prim.Native.String.{String}
use mathlib.Core.Path.{◌≡◌, refl, ap, ◌∙◌}
use mathlib.Core.Bool.{Bool, true, false, ◌&&◌}
use mathlib.Core.List.{List, [], ◌∷◌, map}
use native.Mathlib.Omega.{arith}
use kit.Prelude.Tests.{ltb, leb, ◌==◌, if◌then◌else◌, Bool-cases}

-- The code points of a text; the bytes, where it is ASCII.
unfoldable pub codes : String → List ℕ
codes String.[] = []
codes (String.◌∷◌ c s) = code c ∷ codes s

-- `Ord` on byte strings: lexicographic.
unfoldable pub lex_le : List ℕ → List ℕ → Bool
lex_le [] bs = true
lex_le (a ∷ as') [] = false
lex_le (a ∷ as') (b ∷ bs) = let rest = lex_le as' bs in if a == b then rest else ltb a b

unfoldable pub str_le : String → String → Bool
unfolding codes lex_le
str_le s t = lex_le (codes s) (codes t)

module _ {ℓ} {A : Type ℓ} (le : A → A → Bool) where
  unfoldable pub insert_by : A → List A → List A
  insert_by x [] = x ∷ []
  insert_by x (y ∷ ys) = let rest = insert_by x ys in if le x y then x ∷ y ∷ ys else y ∷ rest

  unfoldable pub sort_by : List A → List A
  sort_by [] = []
  sort_by (x ∷ xs) = insert_by x (sort_by xs)

module _ {ℓ κ} {A : Type ℓ} {B : Type κ} (f : A → B) (le : B → B → Bool) where
  map-insert_by :
      (x : A) (xs : List A)
      → map f (insert_by (λ a b. le (f a) (f b)) x xs) ≡ insert_by le (f x) (map f xs)
  unfolding insert_by
  map-insert_by x [] = refl
  map-insert_by x (y ∷ ys) = ground (arith, map-insert_by x ys)

  -- Sorting by a key, then reading the keys, is sorting the keys.
  pub map-sort_by :
      (xs : List A) → map f (sort_by (λ a b. le (f a) (f b)) xs) ≡ sort_by le (map f xs)
  unfolding sort_by
  map-sort_by [] = refl
  map-sort_by (x ∷ xs) =
      map-insert_by x (sort_by (λ a b. le (f a) (f b)) xs)
      ∙ ap (insert_by le (f x)) (map-sort_by xs)
