-- ===== src/Prelude/Text/Split.antt =====
-- Where a text is cut: at the first or the last of a byte, or at the first byte of a set.
use Prim.Native.Nat.{ℕ}
use mathlib.Core.Path.{◌≡◌, refl, ap, ◌∙◌}
use mathlib.Core.Bool.{Bool, true, false, ◌&&◌, not}
use mathlib.Core.Option.{Option, none, some}
use mathlib.Core.Logic.{inl, inr}
use mathlib.Core.List.{List, [], ◌∷◌, ◌++◌}
use native.Mathlib.Omega.{arith}
use kit.Prelude.Tests.{◌==◌, if◌then◌else◌, Bool-cases, Option-cases}
use kit.Prelude.Lists.{any}

abbrev pub has : ℕ → List ℕ → Bool
has c = any (λ d. d == c)

-- `split_once(c)`.
unfoldable pub split_once : ℕ → List ℕ → Option (List ℕ × List ℕ)
split_once c [] = none
split_once c (d ∷ ds) =
    let rest = elim (split_once c ds) as (λ r. Option (List ℕ × List ℕ)) [
      | none ↦ none
      | some (a, b) ↦ some (d ∷ a, b)
    ] in
    if d == c then some ([], ds) else rest

-- `rfind(c)`, with both sides of it.
unfoldable pub rsplit_once : ℕ → List ℕ → Option (List ℕ × List ℕ)
rsplit_once c [] = none
rsplit_once c (d ∷ ds) = elim (rsplit_once c ds) [
  | some (a, b) ↦ some (d ∷ a, b)
  | none ↦ if d == c then some ([], ds) else none
]

-- `find(set)`, or the end.
unfoldable pub cut : (ℕ → Bool) → List ℕ → List ℕ × List ℕ
cut p [] = ([], [])
cut p (d ∷ ds) = let (a, b) = cut p ds in if p d then ([], d ∷ ds) else (d ∷ a, b)

pub split_once-append :
    (c : ℕ) (xs ys : List ℕ) → has c xs ≡ false → split_once c (xs ++ c ∷ ys) ≡ some (xs, ys)
unfolding split_once any
split_once-append c [] ys h = ground arith
split_once-append c (x ∷ xs) ys h = ground (arith, split_once-append c xs ys)

pub split_once-none : (c : ℕ) (xs : List ℕ) → has c xs ≡ false → split_once c xs ≡ none
unfolding split_once any
split_once-none c [] h = refl
split_once-none c (x ∷ xs) h = ground (arith, split_once-none c xs)

pub rsplit_once-none : (c : ℕ) (xs : List ℕ) → has c xs ≡ false → rsplit_once c xs ≡ none
unfolding rsplit_once any
rsplit_once-none c [] h = refl
rsplit_once-none c (x ∷ xs) h = ground (arith, rsplit_once-none c xs)

pub rsplit_once-append :
    (c : ℕ) (xs ys : List ℕ) → has c ys ≡ false → rsplit_once c (xs ++ c ∷ ys) ≡ some (xs, ys)
unfolding rsplit_once
rsplit_once-append c [] ys h = ground (arith, rsplit_once-none c ys h)
rsplit_once-append c (x ∷ xs) ys h = ground (arith, rsplit_once-append c xs ys h)

pub rsplit_once-none-has : (c : ℕ) (xs : List ℕ) → rsplit_once c xs ≡ none → has c xs ≡ false
unfolding rsplit_once any
rsplit_once-none-has c [] h = refl
rsplit_once-none-has c (x ∷ xs) h = elim (Option-cases (rsplit_once c xs)) [
  | inl rest ↦ ground (arith, h, rest, rsplit_once-none-has c xs rest)
  | inr (found, e) ↦ absurd (ground (arith, h, e))
]

-- What is cut at the last of a byte is a text around it, and the byte is not in the second part.
pub rsplit_once-some :
    (c : ℕ) (xs ys zs : List ℕ)
    → rsplit_once c xs ≡ some (ys, zs)
    → (xs ≡ ys ++ c ∷ zs) × (has c zs ≡ false)
unfolding rsplit_once
rsplit_once-some c [] ys zs h = absurd (cc)
rsplit_once-some c (x ∷ xs) ys zs h = elim (Option-cases (rsplit_once c xs)) [
  | inr ((us, vs), e) ↦
      let (same, none_left) = rsplit_once-some c xs us vs e in
      (ground (arith, h, e, same), ground (arith, h, e, none_left))
  | inl rest ↦ (ground (arith, h, rest), ground (arith, h, rest, rsplit_once-none-has c xs rest))
]

pub cut-append :
    (p : ℕ → Bool) (xs ys : List ℕ)
    → any p xs ≡ false
    → cut p (xs ++ ys) ≡ (xs ++ (cut p ys).0, (cut p ys).1)
unfolding cut any
cut-append p [] ys h = refl
cut-append p (x ∷ xs) ys h = ground (arith, cut-append p xs ys)

-- A text that is empty or begins with a byte of the set is cut at once.
abbrev pub Begins : (ℕ → Bool) → List ℕ → Type 0
Begins p [] = Unit
Begins p (c ∷ cs) = p c ≡ true

pub cut-Begins : (p : ℕ → Bool) (cs : List ℕ) → Begins p cs → cut p cs ≡ ([], cs)
unfolding cut
cut-Begins p [] h = refl
cut-Begins p (c ∷ cs) h = ground arith

-- `trim`, `trim_start` and `trim_end`, for the bytes that pass a test.
unfoldable pub trim_start_by : (ℕ → Bool) → List ℕ → List ℕ
trim_start_by p [] = []
trim_start_by p (c ∷ cs) = let rest = trim_start_by p cs in if p c then rest else c ∷ cs

abbrev pub is_nil : List ℕ → Bool
is_nil [] = true
is_nil (c ∷ cs) = false

unfoldable pub trim_end_by : (ℕ → Bool) → List ℕ → List ℕ
trim_end_by p [] = []
trim_end_by p (c ∷ cs) = let rest = trim_end_by p cs in if is_nil rest && p c then [] else c ∷ rest

unfoldable pub trim_by : (ℕ → Bool) → List ℕ → List ℕ
unfolding trim_start_by trim_end_by
trim_by p cs = trim_end_by p (trim_start_by p cs)

pub trim_end_by-none : (p : ℕ → Bool) (cs : List ℕ) → any p cs ≡ false → trim_end_by p cs ≡ cs
unfolding trim_end_by any
trim_end_by-none p [] h = refl
trim_end_by-none p (c ∷ cs) h = ground (arith, trim_end_by-none p cs)

-- So is one that ends so.
pub trim_end_by-append :
    (p : ℕ → Bool) (xs : List ℕ) (y : ℕ) (ys : List ℕ)
    → any p (y ∷ ys) ≡ false
    → trim_end_by p (xs ++ y ∷ ys) ≡ xs ++ y ∷ ys
unfolding trim_end_by
trim_end_by-append p [] y ys h = trim_end_by-none p (y ∷ ys) h
trim_end_by-append p (x ∷ []) y ys h = rw (trim_end_by-none p (y ∷ ys) h, trim_end_by) refl
trim_end_by-append p (x ∷ x' ∷ xs) y ys h =
    rw (trim_end_by-append p (x' ∷ xs) y ys h, trim_end_by) refl

-- A text in which nothing passes is left alone.
pub trim_by-none : (p : ℕ → Bool) (cs : List ℕ) → any p cs ≡ false → trim_by p cs ≡ cs
unfolding trim_by any
trim_by-none p [] h = refl
trim_by-none p (c ∷ cs) h = ground (arith, trim_end_by-none p cs)

-- Nothing is left of a text exactly when every byte of it passes.
trim_start_by-any :
    (p : ℕ → Bool) (cs : List ℕ)
    → any (λ c. not (p c)) (trim_start_by p cs) ≡ any (λ c. not (p c)) cs
unfolding trim_start_by any
trim_start_by-any p [] = refl
trim_start_by-any p (c ∷ cs) = ground (arith, trim_start_by-any p cs)

is_nil-trim_end_by :
    (p : ℕ → Bool) (cs : List ℕ) → is_nil (trim_end_by p cs) ≡ not (any (λ c. not (p c)) cs)
unfolding trim_end_by any
is_nil-trim_end_by p [] = refl
is_nil-trim_end_by p (c ∷ cs) = ground (arith, is_nil-trim_end_by p cs)

pub is_nil-trim_by :
    (p : ℕ → Bool) (cs : List ℕ) → is_nil (trim_by p cs) ≡ not (any (λ c. not (p c)) cs)
unfolding trim_by
is_nil-trim_by p cs = is_nil-trim_end_by p (trim_start_by p cs) ∙ ap not (trim_start_by-any p cs)

-- `strip_prefix`.
unfoldable pub strip_prefix : List ℕ → List ℕ → Option (List ℕ)
strip_prefix [] cs = some cs
strip_prefix (p ∷ ps) [] = none
strip_prefix (p ∷ ps) (c ∷ cs) = let rest = strip_prefix ps cs in if c == p then rest else none

pub strip_prefix-append : (ps cs : List ℕ) → strip_prefix ps (ps ++ cs) ≡ some cs
unfolding strip_prefix
strip_prefix-append [] cs = refl
strip_prefix-append (p ∷ ps) cs = ground (arith, strip_prefix-append ps cs)

pub strip_prefix-some : (ps cs rest : List ℕ) → strip_prefix ps cs ≡ some rest → cs ≡ ps ++ rest
unfolding strip_prefix
strip_prefix-some [] cs rest h = cc
strip_prefix-some (p ∷ ps) [] rest h = absurd (cc)
strip_prefix-some (p ∷ ps) (c ∷ cs) rest h = elim (Bool-cases (c == p)) [
  | inl same ↦ ground (arith, h, same, strip_prefix-some ps cs rest)
  | inr f ↦ absurd (ground (arith, h, f))
]
