-- ===== src/RateLimit/Float.antt =====
-- The arithmetic of crates/ratelimit: finite `f64` numbers. Where `f64` overflows to infinity, which
-- the limiter cuts to the capacity, the number is the largest; 0.0 and -0.0 are one number.
use kit.Prelude.{ℕ, suc, ◌≤◌, Bool, true, false, ◌≡◌, leb, if◌then◌else◌}

pub record Float : Type 1 where
  pub F : Type 0
  pub of_u32 : ℕ → F
  pub add : F → F → F
  pub sub : F → F → F
  pub mul : F → F → F
  pub le : F → F → Bool

abbrev pub zero_of : (f : Float) → f.F
zero_of f = f.of_u32 0

-- `f64::max` and `f64::min`
abbrev pub max : (f : Float) → f.F → f.F → f.F
max f a b = if f.le a b then b else a

abbrev pub min : (f : Float) → f.F → f.F → f.F
min f a b = if f.le a b then a else b

abbrev pub u32_max : ℕ
u32_max = 4294967295

-- What IEEE 754 gives with correct rounding, as far as the theorems rest on it.
pub record IsFloat (f : Float) : Type 0 where
  pub le_refl : (a : f.F) → f.le a a ≡ true
  pub le_trans : (a b c : f.F) → f.le a b ≡ true → f.le b c ≡ true → f.le a c ≡ true
  pub le_antisym : (a b : f.F) → f.le a b ≡ true → f.le b a ≡ true → a ≡ b
  pub le_total : (a b : f.F) → f.le a b ≡ false → f.le b a ≡ true
  -- integers of 32 bits are exact
  pub of_u32_le : (m n : ℕ) → m ≤ u32_max → n ≤ u32_max → f.le (f.of_u32 m) (f.of_u32 n) ≡ leb m n
  pub sub_one : (n : ℕ) → suc n ≤ u32_max → f.sub (f.of_u32 (suc n)) (f.of_u32 1) ≡ f.of_u32 n
  pub sub_self : (a : f.F) → f.sub a a ≡ f.of_u32 0
  pub add_zero : (a : f.F) → f.add a (f.of_u32 0) ≡ a
  pub zero_mul : (r : f.F) → f.mul (f.of_u32 0) r ≡ f.of_u32 0
  pub add_mono : (a b x : f.F) → f.le a b ≡ true → f.le (f.add x a) (f.add x b) ≡ true
  pub sub_mono : (a b x : f.F) → f.le a b ≡ true → f.le (f.sub a x) (f.sub b x) ≡ true
  pub mul_mono :
      (a b r : f.F)
      → f.le a b ≡ true
      → f.le (f.of_u32 0) r ≡ true
      → f.le (f.mul a r) (f.mul b r) ≡ true
  pub sub_pos : (a b : f.F) → f.le b a ≡ true → f.le (f.of_u32 0) (f.sub a b) ≡ true
  pub sub_le : (a b : f.F) → f.le (f.of_u32 0) b ≡ true → f.le (f.sub a b) a ≡ true
