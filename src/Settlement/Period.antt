-- ===== src/Settlement/Period.antt =====
-- lib/settlementCycle.ts: the periods of a close, as their first and last millisecond since 1970.
-- A month is counted from 0, and 12 is January of the next year.
use logestic.Prelude.{
  ℕ, zero, suc, ◌+◌, ◌-◌, ◌*◌, ◌/◌, ◌%◌, Bool, not, ◌&&◌, ◌||◌, ◌==◌, if◌then◌else◌,
}

abbrev pub ms_per_day : ℕ
ms_per_day = 86400000

pub record Period : Type 0 where
  pub period_start : ℕ
  pub period_end : ℕ

-- `Date.UTC(year, month, 1)`, from 1970 on: the days before a year, and before a month in it.
abbrev leaps_up_to : ℕ → ℕ
leaps_up_to y = y / 4 - y / 100 + y / 400

abbrev days_before_year : ℕ → ℕ
days_before_year y = 365 * (y - 1970) + (leaps_up_to (y - 1) - leaps_up_to 1969)

abbrev is_leap : ℕ → Bool
is_leap y = (y % 4 == 0) && (not (y % 100 == 0) || y % 400 == 0)

unfoldable pub days_in_month : Bool → ℕ → ℕ
days_in_month leap m =
    if m == 1
    then (if leap then 29 else 28)
    else if m == 3 || m == 5 || m == 8 || m == 10
    then 30
    else 31

unfoldable pub days_before_month : Bool → ℕ → ℕ
unfolding days_in_month
days_before_month leap zero = 0
days_before_month leap (suc m) = days_in_month leap m + days_before_month leap m

unfoldable pub utc_month_start : ℕ → ℕ → ℕ
unfolding days_before_month
utc_month_start year month =
    (days_before_year year + days_before_month (is_leap year) month) * ms_per_day

-- `monthBoundsUtc`; its month is counted from 1.
unfoldable pub month_bounds_utc : ℕ → ℕ → Period
unfolding utc_month_start
month_bounds_utc year month = record {
  period_start = utc_month_start year (month - 1);
  period_end = utc_month_start year month - 1;
}

-- `ownerPeriodBounds`, for a time after the first bucket: the bucket before the one of the time.
unfoldable pub owner_period_bounds : ℕ → ℕ → Period
owner_period_bounds at period_days =
    let bucket_ms = period_days * ms_per_day in
    let prev_bucket = at / bucket_ms - 1 in
    record {
      period_start = prev_bucket * bucket_ms;
      period_end = (prev_bucket + 1) * bucket_ms - 1;
    }
