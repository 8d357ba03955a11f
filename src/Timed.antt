-- ===== src/Timed.antt =====
-- The calendar of the clock service, kernel/core/timed.c.
pub mod Calendar
use os.Prelude.{
  ℕ, zero, suc, ◌+◌, ◌-◌, ◌*◌, ◌/◌, ◌%◌, ◌^◌, List, [], ◌∷◌, Bool, true, false, not, ◌&&◌, ◌||◌,
  if◌then◌else◌, leb, ◌==◌, get_or, sub_size,
}
use os.Rtc.{RtcTime}

abbrev pub leap : ℕ → Bool
leap y = (y % 4 == 0) && (not (y % 100 == 0) || (y % 400 == 0))

abbrev pub month_lengths : List ℕ
month_lengths = 31 ∷ 28 ∷ 31 ∷ 30 ∷ 31 ∷ 30 ∷ 31 ∷ 31 ∷ 30 ∷ 31 ∷ 30 ∷ 31 ∷ []

-- `m` is between 1 and 12.
unfoldable pub month_days : ℕ → ℕ → ℕ
month_days y m = get_or month_lengths (m - 1) 0 + (if (m == 2) && leap y then 1 else 0)

unfoldable pub year_days : ℕ → ℕ
year_days y = if leap y then 366 else 365

-- The two sums of `to_epoch`, for a number of years or months from one on.
abbrev pub years_days : ℕ → ℕ → ℕ
years_days zero y = 0
years_days (suc n) y = year_days y + years_days n (y + 1)

abbrev pub months_days : ℕ → ℕ → ℕ → ℕ
months_days zero y m = 0
months_days (suc n) y m = month_days y m + months_days n y (m + 1)

unfoldable to_epoch : RtcTime → ℕ
to_epoch t =
    let days = years_days (t.year - 1970) 1970 + months_days (t.month - 1) t.year 1 in
    (sub_size (days + t.day) 1 * 86400 + t.hour * 3600 + t.minute * 60 + t.second) % 2 ^ 64

-- The two loops of `from_epoch`. A year takes at least 365 days, so that days / 365 + 1 rounds are
-- enough; the days of a year end in its twelfth month.
unfoldable year_loop : ℕ → ℕ → ℕ → ℕ × ℕ
year_loop zero days y = (y, days)
year_loop (suc f) days y =
    let rest = year_loop f (days - year_days y) (y + 1) in
    if leb (year_days y) days then rest else (y, days)

unfoldable month_loop : ℕ → ℕ → ℕ → ℕ → ℕ × ℕ
month_loop zero y days m = (m, days)
month_loop (suc f) y days m =
    let rest = month_loop f y (days - month_days y m) (m + 1) in
    if leb (month_days y m) days then rest else (m, days)

unfoldable from_epoch : ℕ → RtcTime
from_epoch value =
    let s = value % 86400 in
    let (y, in_year) = year_loop (value / 86400 / 365 + 1) (value / 86400) 1970 in
    let (m, in_month) = month_loop 12 y in_year 1 in
    record {
      year = y % 2 ^ 16;
      month = m % 2 ^ 8;
      day = (in_month + 1) % 2 ^ 8;
      hour = s / 3600 % 2 ^ 8;
      minute = s % 3600 / 60 % 2 ^ 8;
      second = s % 60 % 2 ^ 8;
    }
