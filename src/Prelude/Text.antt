-- ===== src/Prelude/Text.antt =====
-- Texts as lists of bytes: what the crates use of Rust's `str` and slices.
pub mod Split
use Prim.Native.Nat.{ℕ, suc, zero, ◌+◌, ◌%◌, ◌/◌, ◌≤◌}
use mathlib.Core.Path.{◌≡◌, refl, ap, ◌∙◌}
use mathlib.Core.Logic.{◌↔◌}
use mathlib.Core.Bool.{Bool, true, false, ◌&&◌, ◌||◌}
use mathlib.Core.Option.{Option, none, some}
use mathlib.Core.List.{List, [], ◌∷◌, ◌++◌, reverse, map}
use native.Mathlib.Omega.{arith}
use kit.Prelude.Tests.{ltb, leb, ◌==◌, if◌then◌else◌}
use kit.Prelude.Lists.{length, drop}

-- `char::is_whitespace` on ASCII, which is all that `to_str` lets through.
unfoldable pub is_space : ℕ → Bool
is_space c = (c == 32) || (leb 9 c && leb c 13)

unfoldable pub trim_start : List ℕ → List ℕ
unfolding is_space
trim_start [] = []
trim_start (c ∷ cs) = let rest = trim_start cs in if is_space c then rest else c ∷ cs

unfoldable pub trim : List ℕ → List ℕ
trim cs = reverse (trim_start (reverse (trim_start cs)))

unfoldable pub to_ascii_lowercase : List ℕ → List ℕ
to_ascii_lowercase = map (λ c. if leb b'A' c && leb c b'Z' then c + 32 else c)

unfoldable pub starts_with : List ℕ → List ℕ → Bool
starts_with cs [] = true
starts_with [] (p ∷ ps) = false
starts_with (c ∷ cs) (p ∷ ps) = let rest = starts_with cs ps in (c == p) && rest

-- `len.to_string()`: the digits of a number that fuel bounds.
unfoldable pub digits_of : ℕ → ℕ → List ℕ
digits_of zero n = []
digits_of (suc fuel) n =
    let rest = digits_of fuel (n / 10) in
    if ltb n 10 then (b'0' + n) ∷ [] else rest ++ (b'0' + n % 10) ∷ []

unfoldable pub to_string : ℕ → List ℕ
to_string n = digits_of (suc n) n

-- `==` on slices.
unfoldable pub bytes_eq : List ℕ → List ℕ → Bool
bytes_eq [] [] = true
bytes_eq [] (d ∷ ds) = false
bytes_eq (c ∷ cs) [] = false
bytes_eq (c ∷ cs) (d ∷ ds) = let rest = bytes_eq cs ds in (c == d) && rest

pub bytes_eq_refl : (cs : List ℕ) → bytes_eq cs cs ≡ true
unfolding bytes_eq
bytes_eq_refl [] = refl
bytes_eq_refl (c ∷ cs) = ground (arith, bytes_eq_refl cs)

pub bytes_eq→eq : (cs ds : List ℕ) → bytes_eq cs ds ≡ true → cs ≡ ds
unfolding bytes_eq
bytes_eq→eq [] [] h = refl
bytes_eq→eq [] (d ∷ ds) h = cc
bytes_eq→eq (c ∷ cs) [] h = cc
bytes_eq→eq (c ∷ cs) (d ∷ ds) h = ground (arith, bytes_eq→eq cs ds)

pub starts_with-append : (ps cs : List ℕ) → starts_with (ps ++ cs) ps ≡ true
unfolding starts_with
starts_with-append [] cs = refl
starts_with-append (p ∷ ps) cs = ground (arith, starts_with-append ps cs)

-- A prefix that fits in the first part is looked for there.
pub starts_with-append_short :
    (cs ds ps : List ℕ) → length ps ≤ length cs → starts_with (cs ++ ds) ps ≡ starts_with cs ps
unfolding starts_with
starts_with-append_short [] [] [] h = refl
starts_with-append_short [] (d ∷ ds) [] h = refl
starts_with-append_short (c ∷ cs) ds [] h = refl
starts_with-append_short [] ds (p ∷ ps) h = absurd (omega arith)
starts_with-append_short (c ∷ cs) ds (p ∷ ps) h =
    ap (λ b. (c == p) && b) (starts_with-append_short cs ds ps (omega arith))

pub drop-append : (cs ds : List ℕ) → drop (length cs) (cs ++ ds) ≡ ds
drop-append [] ds = refl
drop-append (c ∷ cs) ds = drop-append cs ds
