-- ===== src/Webhooks/Digits.antt =====
-- crates/webhooks/src/lib.rs: texts of hexadecimal digits, their prefix and their spaces.
use kit.Prelude.{
  ℕ, zero, suc, Bool, true, false, not, ◌||◌, ◌&&◌, none, some, List, [], ◌∷◌, ◌++◌, ◌≡◌, inl, inr,
  refl, sym, ◌∙◌, arith, leb, ◌==◌, any, length, Bool-cases, Option-cases,
}
use kit.Prelude.Text.Split.{trim_by, trim_by-none, trim_end_by-append, strip_prefix}
use kit.Prelude.Strings.{is_whitespace}
use kit.Webhooks.{Crates, trim, sha256_prefix, strip_all}

-- What is no hexadecimal digit.
abbrev pub not_hex : ℕ → Bool
not_hex c =
    not ((leb b'0' c && leb c b'9') || ((leb b'a' c && leb c b'f') || (leb b'A' c && leb c b'F')))

-- What hex promises: an encoding is decoded, and nothing but digits is.
pub record IsHex (c : Crates) : Type 0 where
  pub undone : (bytes : List ℕ) → c.decode (c.encode bytes) ≡ some bytes
  pub digits : (s bytes : List ℕ) → c.decode s ≡ some bytes → any not_hex s ≡ false

pub space-not_hex : (d : ℕ) → not_hex d ≡ false → is_whitespace d ≡ false
unfolding is_whitespace
space-not_hex d h = ground arith

pub digits_no_space : (s : List ℕ) → any not_hex s ≡ false → any is_whitespace s ≡ false
unfolding any
digits_no_space [] h = refl
digits_no_space (d ∷ s) h = ground (arith, digits_no_space s, space-not_hex d)

pub trim_digits : (s : List ℕ) → any not_hex s ≡ false → trim s ≡ s
trim_digits s h = trim_by-none is_whitespace s (digits_no_space s h)

-- Text in front of which the prefix stands is not all digits, trimmed or not.
pub prefix_not_digits :
    (s rest : List ℕ) → strip_prefix sha256_prefix s ≡ some rest → any not_hex (trim s) ≡ true
unfolding strip_prefix trim_by any is_whitespace
prefix_not_digits [] rest h = absurd (cc)
prefix_not_digits (d ∷ s) rest h = elim (Bool-cases (d == b's')) [
  | inl t ↦ ground (arith, h, t)
  | inr f ↦ absurd (ground (arith, h, f))
]

pub strip_all_digits : (n : ℕ) (s : List ℕ) → any not_hex (trim s) ≡ false → strip_all n s ≡ s
unfolding strip_all
strip_all_digits zero s h = refl
strip_all_digits (suc n) s h = elim (Option-cases (strip_prefix sha256_prefix s)) [
  | inl none_there ↦ rw (none_there, strip_all) refl
  | inr (rest, there) ↦
      let clash : true ≡ false = sym (prefix_not_digits s rest there) ∙ h in absurd (cc)
]

pub strip_nil : strip_prefix sha256_prefix [] ≡ none
unfolding strip_prefix
strip_nil = refl

-- One prefix is stripped, and no second one.
pub strip_all_once :
    (header rest : List ℕ)
    → strip_prefix sha256_prefix header ≡ some rest
    → any not_hex (trim rest) ≡ false
    → strip_all (length header) header ≡ rest
unfolding strip_all
strip_all_once [] rest h k = absurd (cc strip_nil)
strip_all_once (d ∷ header) rest h k = rw (h, strip_all) (strip_all_digits (length header) rest k)

pub space_dropped : (digits : List ℕ) → trim (b' ' ∷ digits) ≡ trim digits
unfolding trim_by is_whitespace
space_dropped digits = refl

pub spaced_trim :
    (digit : ℕ) (digits : List ℕ)
    → any is_whitespace (digit ∷ digits) ≡ false
    → trim (sha256_prefix ++ b' ' ∷ digit ∷ digits) ≡ sha256_prefix ++ b' ' ∷ digit ∷ digits
unfolding trim_by is_whitespace
spaced_trim digit digits h =
    trim_end_by-append is_whitespace (sha256_prefix ++ b' ' ∷ []) digit digits h
