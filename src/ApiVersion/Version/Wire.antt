-- ===== src/ApiVersion/Version/Wire.antt =====
-- crates/api-version/src/version.rs: the parser and the printer are inverse to each other.
use kit.Prelude.{
  length-append, sym, length, ap, ◌∙◌, ℕ, ◌+◌, ◌-◌, ◌*◌, ◌/◌, ◌%◌, ◌≤◌, ◌<◌, some, List, [], ◌∷◌,
  ◌++◌, ◌≡◌, ◌↔◌, arith, refl, ok, err,
}
use kit.ApiVersion.Version.{
  ApiVersion, days_in_month, from_ymd, parse_digits, zero_padded, from_str, display,
  parse_digits_from, malformed,
}
use kit.ApiVersion.Version.Calendar.{IsDate, from_ymd_iff}

-- Two and four digits, as the printer writes them.
two_of : (n : ℕ) → n < 100 → zero_padded 2 n ≡ (48 + n / 10) ∷ (48 + n % 10) ∷ []
unfolding zero_padded
two_of n h = ground arith

four_of :
    (n : ℕ)
    → n < 10000
    → zero_padded 4 n
      ≡ (48 + n / 1000) ∷ (48 + n / 100 % 10) ∷ (48 + n / 10 % 10) ∷ (48 + n % 10) ∷ []
unfolding zero_padded
four_of n h = ground arith

abbrev IsDigit : ℕ → Type 0
IsDigit b = (48 ≤ b) × (b ≤ 57)

-- One round of the parser's loop, below the overflow of u16.
round_some :
    (value byte : ℕ) (rest : List ℕ) (n : ℕ)
    → value < 1000
    → parse_digits_from value (byte ∷ rest) ≡ some n
    → IsDigit byte × (parse_digits_from (value * 10 + (byte - 48)) rest ≡ some n)
unfolding parse_digits_from
round_some value byte rest n v h = (ground arith, ground arith)

round_digit :
    (value byte : ℕ) (rest : List ℕ)
    → value < 1000
    → IsDigit byte
    → parse_digits_from value (byte ∷ rest) ≡ parse_digits_from (value * 10 + (byte - 48)) rest
unfolding parse_digits_from
round_digit value byte rest v h = ground arith

done_eq : (value n : ℕ) → parse_digits_from value [] ≡ some n → value ≡ n
unfolding parse_digits_from
done_eq value n h = ground arith

parse_two :
    (a b n : ℕ)
    → parse_digits (a ∷ b ∷ []) ≡ some n
    → IsDigit a × IsDigit b × (n + 528 ≡ a * 10 + b)
unfolding parse_digits
parse_two a b n h =
    let (da, h1) = round_some 0 a (b ∷ []) n (omega arith) h in
    let (db, h2) = round_some (0 * 10 + (a - 48)) b [] n (omega arith) h1 in
    (da, db, omega (arith, done_eq _ n h2))

parse_four :
    (a b c d n : ℕ)
    → parse_digits (a ∷ b ∷ c ∷ d ∷ []) ≡ some n
    → IsDigit a × IsDigit b × IsDigit c × IsDigit d × (n + 53328 ≡ a * 1000 + b * 100 + c * 10 + d)
unfolding parse_digits
parse_four a b c d n h =
    let (da, h1) = round_some 0 a (b ∷ c ∷ d ∷ []) n (omega arith) h in
    let v1 : ℕ = 0 * 10 + (a - 48) in
    let (db, h2) = round_some v1 b (c ∷ d ∷ []) n (omega arith) h1 in
    let v2 : ℕ = v1 * 10 + (b - 48) in
    let (dc, h3) = round_some v2 c (d ∷ []) n (omega arith) h2 in
    let v3 : ℕ = v2 * 10 + (c - 48) in
    let (dd, h4) = round_some v3 d [] n (omega arith) h3 in
    (da, db, dc, dd, omega (arith, done_eq _ n h4))

print_two : (a b n : ℕ) → parse_digits (a ∷ b ∷ []) ≡ some n → zero_padded 2 n ≡ a ∷ b ∷ []
print_two a b n h =
    let (da, db, e) = parse_two a b n h in
    let x : 48 + n / 10 ≡ a = omega arith in
    let y : 48 + n % 10 ≡ b = omega arith in two_of n (omega arith) ∙ cc

print_four :
    (a b c d n : ℕ)
    → parse_digits (a ∷ b ∷ c ∷ d ∷ []) ≡ some n
    → zero_padded 4 n ≡ a ∷ b ∷ c ∷ d ∷ []
print_four a b c d n h =
    let (da, db, dc, dd, e) = parse_four a b c d n h in
    let x : 48 + n / 1000 ≡ a = omega arith in
    let y : 48 + n / 100 % 10 ≡ b = omega arith in
    let z : 48 + n / 10 % 10 ≡ c = omega arith in
    let w : 48 + n % 10 ≡ d = omega arith in four_of n (omega arith) ∙ cc

finish : (value n : ℕ) → value ≡ n → parse_digits_from value [] ≡ some n
unfolding parse_digits_from
finish value n e = ap some e

read_two : (n : ℕ) → n < 100 → parse_digits (zero_padded 2 n) ≡ some n
unfolding parse_digits
read_two n h =
    let a : ℕ = 48 + n / 10 in
    let b : ℕ = 48 + n % 10 in
    ap (parse_digits_from 0) (two_of n h)
    ∙ round_digit 0 a (b ∷ []) (omega arith) (omega arith)
    ∙ round_digit (0 * 10 + (a - 48)) b [] (omega arith) (omega arith)
    ∙ finish _ n (omega arith)

read_four : (n : ℕ) → n < 10000 → parse_digits (zero_padded 4 n) ≡ some n
unfolding parse_digits
read_four n h =
    let a : ℕ = 48 + n / 1000 in
    let b : ℕ = 48 + n / 100 % 10 in
    let c : ℕ = 48 + n / 10 % 10 in
    let d : ℕ = 48 + n % 10 in
    let v1 : ℕ = 0 * 10 + (a - 48) in
    let v2 : ℕ = v1 * 10 + (b - 48) in
    let v3 : ℕ = v2 * 10 + (c - 48) in
    ap (parse_digits_from 0) (four_of n h)
    ∙ round_digit 0 a (b ∷ c ∷ d ∷ []) (omega arith) (omega arith)
    ∙ round_digit v1 b (c ∷ d ∷ []) (omega arith) (omega arith)
    ∙ round_digit v2 c (d ∷ []) (omega arith) (omega arith)
    ∙ round_digit v3 d [] (omega arith) (omega arith)
    ∙ finish _ n (omega arith)

read_two_of : (n : ℕ) → n < 100 → parse_digits ((48 + n / 10) ∷ (48 + n % 10) ∷ []) ≡ some n
read_two_of n h = sym (ap parse_digits (two_of n h)) ∙ read_two n h

read_four_of :
    (n : ℕ)
    → n < 10000
    → parse_digits ((48 + n / 1000) ∷ (48 + n / 100 % 10) ∷ (48 + n / 10 % 10) ∷ (48 + n % 10) ∷ [])
      ≡ some n
read_four_of n h = sym (ap parse_digits (four_of n h)) ∙ read_four n h

-- What a successful parse has read.
from_str_inv :
    (a b c d e f g h i j : ℕ) (v : ApiVersion)
    → from_str (a ∷ b ∷ c ∷ d ∷ e ∷ f ∷ g ∷ h ∷ i ∷ j ∷ []) ≡ ok v
    → (e ≡ 45)
      × (h ≡ 45)
      × (parse_digits (a ∷ b ∷ c ∷ d ∷ []) ≡ some v.year)
      × (parse_digits (f ∷ g ∷ []) ≡ some v.month)
      × (parse_digits (i ∷ j ∷ []) ≡ some v.day)
      × (from_ymd v.year v.month v.day ≡ some v)
unfolding from_str from_ymd
from_str_inv a b c d e f g h i j v p =
    (ground arith, ground arith, ground arith, ground arith, ground arith, ground arith)

length_of_ok : (raw : List ℕ) (v : ApiVersion) → from_str raw ≡ ok v → length raw ≡ 10
unfolding from_str
length_of_ok raw v p = ground arith

-- A text that parses is what the version prints: no version has two spellings.
from_str-display : (raw : List ℕ) (v : ApiVersion) → from_str raw ≡ ok v → display v ≡ raw
unfolding display
from_str-display (a ∷ b ∷ c ∷ d ∷ e ∷ f ∷ g ∷ h ∷ i ∷ j ∷ []) v p =
    let (pe, ph, py, pm, pd, _) = from_str_inv a b c d e f g h i j v p in
    cc (print_four a b c d v.year py, print_two f g v.month pm, print_two i j v.day pd)
from_str-display raw v p = absurd (omega (arith, length_of_ok raw v p))

ten_fields :
    (a b c d e f g h : ℕ) (v : ApiVersion)
    → parse_digits (a ∷ b ∷ c ∷ d ∷ []) ≡ some v.year
    → parse_digits (e ∷ f ∷ []) ≡ some v.month
    → parse_digits (g ∷ h ∷ []) ≡ some v.day
    → v.month < 100
    → v.day < 100
    → from_ymd v.year v.month v.day ≡ some v
    → from_str (a ∷ b ∷ c ∷ d ∷ 45 ∷ e ∷ f ∷ 45 ∷ g ∷ h ∷ []) ≡ ok v
unfolding from_str
ten_fields a b c d e f g h v py pm pd m k o = ground arith

days_in_month-le : (y m : ℕ) → days_in_month y m ≤ 31
unfolding days_in_month
days_in_month-le y m = ground arith

display-from_str : (v : ApiVersion) → IsDate v → v.year < 10000 → from_str (display v) ≡ ok v
unfolding display
display-from_str v date y =
    let m : v.month < 100 = omega (arith, date) in
    let k : v.day < 100 = omega (arith, date, days_in_month-le v.year v.month) in
    rw (four_of v.year y, two_of v.month m, two_of v.day k)
      (ten_fields _ _ _ _ _ _ _ _ v (read_four_of v.year y) (read_two_of v.month m)
        (read_two_of v.day k) m k
        ((from_ymd_iff v.year v.month v.day v).1 (date, refl, refl, refl)))

from_str-IsDate :
    (raw : List ℕ) (v : ApiVersion) → from_str raw ≡ ok v → IsDate v × (v.year < 10000)
from_str-IsDate (a ∷ b ∷ c ∷ d ∷ e ∷ f ∷ g ∷ h ∷ i ∷ j ∷ []) v p =
    let (pe, ph, py, pm, pd, date) = from_str_inv a b c d e f g h i j v p in
    let read = parse_four a b c d v.year py in
    (((from_ymd_iff v.year v.month v.day v).0 date).0, omega arith)
from_str-IsDate raw v p = absurd (omega (arith, length_of_ok raw v p))

-- The parser accepts exactly what the printer writes for the dates of years 0 to 9999: a text parses
-- to a version exactly when the version is such a date and the text is its printed form.
pub from_str_iff :
    (raw : List ℕ) (v : ApiVersion)
    → (from_str raw ≡ ok v) ↔ (IsDate v × (v.year < 10000) × (display v ≡ raw))
from_str_iff raw v = (
  λ p. let (date, y) = from_str-IsDate raw v p in (date, y, from_str-display raw v p),
  λ (date, y, e). ap from_str (sym e) ∙ display-from_str v date y,
)

length_five : (n : ℕ) → 10000 ≤ n → n < 100000 → length (zero_padded 4 n) ≡ 5
unfolding zero_padded
length_five n h k = ground arith

length_two : (n : ℕ) → n < 100 → length (zero_padded 2 n) ≡ 2
length_two n h = rw (two_of n h) refl

length-display-five :
    (v : ApiVersion) → IsDate v → 10000 ≤ v.year → v.year ≤ 65535 → length (display v) ≡ 11
unfolding display
length-display-five v date h k =
    let m = zero_padded 2 v.month in
    let d = zero_padded 2 v.day in
    omega (
      arith,
      length-append (zero_padded 4 v.year) (b'-' ∷ (m ++ (b'-' ∷ d))),
      length-append m (b'-' ∷ d),
      length_five v.year h (omega arith),
      length_two v.month (omega (arith, date)),
      length_two v.day (omega (arith, date, days_in_month-le v.year v.month)),
    )

-- A version of a year past 9999, which `from_ymd` makes and which serializes, is refused as
-- malformed when it is read back.
pub display-from_str_malformed :
    (v : ApiVersion)
    → IsDate v
    → 10000 ≤ v.year
    → v.year ≤ 65535
    → from_str (display v) ≡ err malformed
unfolding from_str
display-from_str_malformed v date h k = ground (arith, length-display-five v date h k)
