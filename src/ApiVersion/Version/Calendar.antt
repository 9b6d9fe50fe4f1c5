-- ===== src/ApiVersion/Version/Calendar.antt =====
-- crates/api-version/src/version.rs: which dates exist, and that the order is chronological.
use kit.Prelude.{ℕ, zero, suc, ◌+◌, ◌≤◌, ◌<◌, some, ltb, if◌then◌else◌, ◌≡◌, ◌↔◌, arith}
use kit.ApiVersion.Version.{ApiVersion, is_leap, days_in_month, from_ymd, version_lt}

-- The version names a day of the calendar.
pub record IsDate (v : ApiVersion) : Type 0 where
  pub month_pos : 1 ≤ v.month
  pub month_max : v.month ≤ 12
  pub day_pos : 1 ≤ v.day
  pub day_max : v.day ≤ days_in_month v.year v.month

-- The number of days before a month of a year, and before a year.
unfoldable pub days_before_month : ℕ → ℕ → ℕ
days_before_month y zero = 0
days_before_month y (suc m) = days_before_month y m + days_in_month y m

unfoldable pub days_before_year : ℕ → ℕ
days_before_year zero = 0
days_before_year (suc y) = days_before_year y + (if is_leap y then 366 else 365)

-- The days since the start of year 0, by counting.
unfoldable pub ordinal : ApiVersion → ℕ
ordinal v = days_before_year v.year + days_before_month v.year v.month + v.day

year_length : (y : ℕ) → days_before_month y 13 ≡ (if is_leap y then 366 else 365)
unfolding days_before_month days_in_month
year_length y = ground arith

days_before_month_mono :
    (y m n : ℕ) → m < n → days_before_month y m + days_in_month y m ≤ days_before_month y n
unfolding days_before_month
days_before_month_mono y m zero h = elim h [ ]
days_before_month_mono y m (suc n) h = ground (arith, days_before_month_mono y m n)

days_before_year_mono : (y z : ℕ) → y < z → days_before_year (suc y) ≤ days_before_year z
unfolding days_before_year
days_before_year_mono y zero h = elim h [ ]
days_before_year_mono y (suc z) h = ground (arith, days_before_year_mono y z)

day_of_year-le :
    (v : ApiVersion)
    → IsDate v
    → days_before_month v.year v.month + v.day ≤ (if is_leap v.year then 366 else 365)
day_of_year-le v h =
    omega (arith, h, year_length v.year, days_before_month_mono v.year v.month 13 (omega arith))

-- A later year, and a later month of one year, is a later day.
year_later : (a b : ApiVersion) → IsDate a → IsDate b → a.year < b.year → ordinal a < ordinal b
unfolding ordinal days_before_year
year_later a b ha hb h =
    omega (arith, day_of_year-le a ha, days_before_year_mono a.year b.year h, hb)

month_later :
    (a b : ApiVersion)
    → IsDate a
    → IsDate b
    → a.year ≡ b.year
    → a.month < b.month
    → ordinal a < ordinal b
unfolding ordinal
month_later a b ha hb e h =
    ground (arith, days_before_month_mono a.year a.month b.month h, ha.day_max, hb.day_pos)

same_month :
    (a b : ApiVersion)
    → a.year ≡ b.year
    → a.month ≡ b.month
    → ltb a.day b.day ≡ ltb (ordinal a) (ordinal b)
unfolding ordinal
same_month a b e f = ground arith

-- On dates of the calendar the derived order of the fields is the chronological order: one version
-- is less than another exactly when fewer days precede it.
pub version_lt-ordinal :
    (a b : ApiVersion) → IsDate a → IsDate b → version_lt a b ≡ ltb (ordinal a) (ordinal b)
unfolding version_lt
version_lt-ordinal a b ha hb = ground (
  arith,
  year_later a b ha hb,
  year_later b a hb ha,
  month_later a b ha hb,
  month_later b a hb ha,
  same_month a b,
)

-- `from_ymd` returns a version exactly for the dates that exist, with the parts it was given.
pub from_ymd_iff :
    (y m d : ℕ) (v : ApiVersion)
    → (from_ymd y m d ≡ some v) ↔ (IsDate v × (v.year ≡ y) × (v.month ≡ m) × (v.day ≡ d))
unfolding from_ymd
from_ymd_iff y m d v =
    (λ h. (ground arith, ground arith, ground arith, ground arith), λ h. ground arith)
