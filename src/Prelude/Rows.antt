-- ===== src/Prelude/Rows.antt =====
-- Tables as the SQL statements of several crates see them: updates, lookups, distinct rows.
pub mod Distinct
use mathlib.Core.Option
use mathlib.Core.Path.{◌≡◌, refl, sym, ap, ◌∙◌, subst, fun_ext}
use mathlib.Core.Logic.{◌≢◌, ◌⊎◌, inl, inr}
use mathlib.Core.Bool.{Bool, true, false}
use mathlib.Core.List.{List, [], ◌∷◌, ◌++◌}
use mathlib.Core.Option.{Option, none, some}
use Prim.Native.Nat.{ℕ}
use native.Mathlib.Omega.{arith}
use kit.Prelude.Tests.{Bool-cases, ◌==◌, if◌then◌else◌}
use kit.Prelude.Lists.{any}

module _ {A : Type 0} where
  -- UPDATE … SET … WHERE …
  unfoldable pub update_where : (A → Bool) → (A → A) → List A → List A
  update_where p f [] = []
  update_where p f (r ∷ rs) = (if p r then f r else r) ∷ update_where p f rs

  -- The first row that a WHERE admits.
  unfoldable pub find : (A → Bool) → List A → Option A
  find p [] = none
  find p (r ∷ rs) = let rest = find p rs in if p r then some r else rest

  abbrev pub AllRows : (A → Type 0) → List A → Type 0
  AllRows P [] = Unit
  AllRows P (r ∷ rs) = P r × AllRows P rs

  pub AllRows-map :
      {P Q : A → Type 0}
      → ((r : A) → P r → Q r)
      → (table : List A) → AllRows P table
      → AllRows Q table
  AllRows-map f [] h = tt
  AllRows-map f (r ∷ rs) h = (f r h.0, AllRows-map f rs h.1)

  pub AllRows-update_where :
      (P : A → Type 0) (p : A → Bool) (f : A → A) (table : List A)
      → ((r : A) → p r ≡ true → P r → P (f r))
      → AllRows P table
      → AllRows P (update_where p f table)
  unfolding update_where
  AllRows-update_where P p f [] keep h = tt
  AllRows-update_where P p f (r ∷ rs) keep h =
      (at_row (p r) (keep r), AllRows-update_where P p f rs keep h.1)
    where
      at_row : (b : Bool) → (b ≡ true → P r → P (f r)) → P (if b then f r else r)
      at_row true k = k refl h.0
      at_row false k = h.0

  pub AllRows-append :
      (P : A → Type 0) (xs ys : List A) → AllRows P xs → AllRows P ys → AllRows P (xs ++ ys)
  AllRows-append P [] ys h k = k
  AllRows-append P (x ∷ xs) ys h k = (h.0, AllRows-append P xs ys h.1 k)

  -- The row stands in the table.
  abbrev pub Among : A → List A → Type 0
  Among r [] = ⊥
  Among r (s ∷ rs) = (s ≡ r) ⊎ Among r rs

  pub AllRows-at : (P : A → Type 0) (table : List A) (r : A) → AllRows P table → Among r table → P r
  AllRows-at P [] r h m = absurd m
  AllRows-at P (x ∷ xs) r h (inl e) = subst P e h.0
  AllRows-at P (x ∷ xs) r h (inr m) = AllRows-at P xs r h.1 m

  -- A lookup that the update's test does not see through, before or after the update.
  pub find-update_where :
      (q p : A → Bool) (f : A → A) (table : List A)
      → ((r : A) → q (f r) ≡ q r)
      → find q (update_where p f table) ≡ Option.map (λ r. if p r then f r else r) (find q table)
  unfolding find update_where
  find-update_where q p f [] same = refl
  find-update_where q p f (r ∷ rs) same = ground (arith, same r, find-update_where q p f rs same)

  pub find-append :
      (q : A → Bool) (xs ys : List A)
      → find q (xs ++ ys) ≡ elim (find q xs) [ none ↦ find q ys | some r ↦ some r ]
  unfolding find
  find-append q [] ys = refl
  find-append q (x ∷ xs) ys = ground (arith, find-append q xs ys)

  pub find-passes : (q : A → Bool) (table : List A) (r : A) → find q table ≡ some r → q r ≡ true
  unfolding find
  find-passes q [] r h = cc
  find-passes q (s ∷ rs) r h = ground (arith, find-passes q rs r)

  -- A row that one test finds is there for another test that it passes.
  pub find_also :
      (q p : A → Bool) (table : List A) (r : A)
      → find q table ≡ some r
      → p r ≡ true
      → find p table ≢ none
  unfolding find
  find_also q p [] r h k e = cc
  find_also q p (s ∷ rs) r h k e = ground (arith, find_also q p rs r)

  pub find-Among : (q : A → Bool) (table : List A) (r : A) → find q table ≡ some r → Among r table
  unfolding find
  find-Among q [] r h = absurd (cc)
  find-Among q (s ∷ rs) r h = elim (Bool-cases (q s)) [
    | inl t ↦ inl (ground (arith))
    | inr f ↦ inr (find-Among q rs r (ground (arith)))
  ]
