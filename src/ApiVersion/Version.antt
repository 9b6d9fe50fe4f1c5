-- ===== src/ApiVersion/Version.antt =====
-- crates/api-version/src/version.rs: `ApiVersion`, its calendar, parser, printer and order.
-- A text is the list of its bytes.
pub mod Calendar
pub mod Wire
use kit.Prelude.{
  ℕ, zero, suc, ◌+◌, ◌-◌, ◌*◌, ◌/◌, ◌%◌, Bool, true, false, not, ◌&&◌, ◌||◌, Option, none, some,
  List, [], ◌∷◌, ◌++◌, ltb, leb, ◌==◌, if◌then◌else◌, length, get_or, take, drop, replicate, Result,
  ok, err, ◌>>=◌, ok_or,
}

pub record ApiVersion : Type 0 where
  pub year : ℕ  -- u16
  pub month : ℕ  -- u8
  pub day : ℕ  -- u8

unfoldable pub is_leap : ℕ → Bool
is_leap year = (year % 4 == 0) && (not (year % 100 == 0) || (year % 400 == 0))

-- The arms of the `match` on the month, in order; no month passes two tests.
unfoldable pub days_in_month : ℕ → ℕ → ℕ
unfolding is_leap
days_in_month year month =
    if month == 1
      || month == 3
      || month == 5
      || month == 7
      || month == 8
      || month == 10
      || month == 12
    then 31
    else if month == 4 || month == 6 || month == 9 || month == 11
    then 30
    else if (month == 2) && is_leap year
    then 29
    else if month == 2
    then 28
    else 0

unfoldable pub from_ymd : ℕ → ℕ → ℕ → Option ApiVersion
from_ymd year month day =
    if month == 0 || ltb 12 month || day == 0
    then none
    else if ltb (days_in_month year month) day
    then none
    else some (record { year = year; month = month; day = day })

-- `derive(Ord)`: lexicographic in the order of the fields.
unfoldable pub version_lt : ApiVersion → ApiVersion → Bool
version_lt a b =
    if ltb a.year b.year
    then true
    else if ltb b.year a.year
    then false
    else if ltb a.month b.month
    then true
    else if ltb b.month a.month
    then false
    else ltb a.day b.day

abbrev pub version_le : ApiVersion → ApiVersion → Bool
version_le a b = not (version_lt b a)

pub data ParseApiVersionError : Type 0 where
  malformed not_a_calendar_date : ParseApiVersionError

abbrev pub u16_max : ℕ
u16_max = 65535

unfoldable pub is_ascii_digit : ℕ → Bool
is_ascii_digit byte = leb b'0' byte && leb byte b'9'

-- `value.checked_mul(10)?.checked_add(d)?` on u16.
unfoldable pub checked_digit : ℕ → ℕ → Option ℕ
checked_digit value d =
    if ltb u16_max (value * 10)
    then none
    else if ltb u16_max (value * 10 + d)
    then none
    else some (value * 10 + d)

-- The loop of `parse_digits`, over the value so far.
unfoldable pub parse_digits_from : ℕ → List ℕ → Option ℕ
unfolding is_ascii_digit checked_digit
parse_digits_from value [] = some value
parse_digits_from value (byte ∷ rest) =
    if is_ascii_digit byte
    then elim (checked_digit value (byte - b'0')) [
      | none ↦ none
      | some value' ↦ parse_digits_from value' rest
    ]
    else none

unfoldable pub parse_digits : List ℕ → Option ℕ
unfolding parse_digits_from
parse_digits bytes = parse_digits_from 0 bytes

-- `u8::try_from(n).map_err(|_| NotACalendarDate)`.
unfoldable pub to_u8 : ℕ → Result ParseApiVersionError ℕ
to_u8 n = if ltb n 256 then ok n else err not_a_calendar_date

unfoldable pub from_str : List ℕ → Result ParseApiVersionError ApiVersion
unfolding to_u8
from_str bytes =
    if not (length bytes == 10) || not (get_or bytes 4 0 == b'-') || not (get_or bytes 7 0 == b'-')
    then err malformed
    else do
      year ← ok_or (parse_digits (take 4 bytes)) malformed
      month ← ok_or (parse_digits (take 2 (drop 5 bytes))) malformed
      day ← ok_or (parse_digits (take 2 (drop 8 bytes))) malformed
      month ← to_u8 month
      day ← to_u8 day
      ok_or (from_ymd year month day) not_a_calendar_date

-- The decimal digits of a number below 10 ^ (fuel + 1).
unfoldable pub decimal : ℕ → ℕ → List ℕ
decimal zero n = (b'0' + n % 10) ∷ []
decimal (suc fuel) n =
    let rest = decimal fuel (n / 10) in
    if ltb n 10 then (b'0' + n) ∷ [] else rest ++ (b'0' + n % 10) ∷ []

-- `{:0w}` of a u16 or u8, which has at most five digits.
unfoldable pub zero_padded : ℕ → ℕ → List ℕ
unfolding decimal
zero_padded w n = let ds = decimal 4 n in replicate (w - length ds) b'0' ++ ds

-- `Display`, and what `Serialize` collects.
unfoldable pub display : ApiVersion → List ℕ
display v = zero_padded 4 v.year ++ (b'-' ∷ (zero_padded 2 v.month ++ (b'-' ∷ zero_padded 2 v.day)))
