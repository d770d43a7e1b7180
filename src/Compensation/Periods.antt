-- ===== src/Compensation/Periods.antt =====
-- `matchesGuaranteePeriod` and the calendar of backend/src/modules/compensation/payments.service.ts. A
-- date counts milliseconds from the earliest time that a `Date` can hold, 100,000,000 days before 1970.
-- The civil calendar is the proleptic Gregorian one of ECMAScript, its years counted from 272,000 years
-- before year 0, a multiple of the 400 years after which leap years repeat. Dates before the year 100,
-- of which `Date.UTC` takes the year as one of the 20th century, are left out.
use logistics_center.Base.{
  ℕ, ◌+◌, ◌-◌, ◌*◌, ◌/◌, ◌%◌, Bool, not, ◌&&◌, ◌||◌, ◌==◌, ltb, if◌then◌else◌,
}
use logistics_center.Compensation.RuleConfig.{GuaranteePeriod, daily, weekly, monthly}

abbrev pub ms_per_day : ℕ
ms_per_day = 86_400_000

unfoldable pub utc_day : ℕ → ℕ
utc_day time = time / ms_per_day

-- Days from a first of March at which a cycle of 400 years begins.
unfoldable pub day_of_cycle : ℕ → ℕ
unfolding utc_day
day_of_cycle time = (utc_day time + 65_428) % 146_097

unfoldable pub year_of_cycle : ℕ → ℕ
year_of_cycle doe = (doe - doe / 1460 + doe / 36_524 - doe / 146_096) / 365

unfoldable pub day_of_year : ℕ → ℕ
unfolding year_of_cycle
day_of_year doe = doe - (365 * year_of_cycle doe + year_of_cycle doe / 4 - year_of_cycle doe / 100)

-- Months from March.
unfoldable pub month_from_march : ℕ → ℕ
unfolding day_of_year
month_from_march doe = (5 * day_of_year doe + 2) / 153

-- `getUTCMonth()`: 0 is January.
unfoldable pub get_utc_month : ℕ → ℕ
unfolding month_from_march day_of_cycle
get_utc_month time = (month_from_march (day_of_cycle time) + 2) % 12

-- `getUTCDate()`
unfoldable pub get_utc_date : ℕ → ℕ
unfolding month_from_march day_of_cycle
get_utc_date time =
    let doe = day_of_cycle time in day_of_year doe - (153 * month_from_march doe + 2) / 5 + 1

-- `getUTCFullYear()`, counted as said above.
unfoldable pub get_utc_full_year : ℕ → ℕ
unfolding month_from_march day_of_cycle utc_day
get_utc_full_year time =
    year_of_cycle (day_of_cycle time)
    + (utc_day time + 65_428) / 146_097 * 400
    + (if ltb (month_from_march (day_of_cycle time)) 10 then 0 else 1)

-- The last day of the month.
unfoldable pub days_in_utc_month : ℕ → ℕ → ℕ
days_in_utc_month year month =
    if month == 1
    then if year % 4 == 0 && (not (year % 100 == 0) || year % 400 == 0) then 29 else 28
    else if month == 3 || (month == 5 || (month == 8 || month == 10))
    then 30
    else 31

unfoldable pub is_same_utc_day : ℕ → ℕ → Bool
unfolding get_utc_full_year get_utc_month get_utc_date
is_same_utc_day left right =
    get_utc_full_year left == get_utc_full_year right
    && (get_utc_month left == get_utc_month right && get_utc_date left == get_utc_date right)

-- `dayDiff(start, end) === days`
unfoldable pub day_diff_is : ℕ → ℕ → ℕ → Bool
unfolding utc_day
day_diff_is start end days = utc_day start + days == utc_day end

unfoldable pub matches_guarantee_period : GuaranteePeriod → ℕ → ℕ → Bool
unfolding is_same_utc_day day_diff_is days_in_utc_month
matches_guarantee_period daily start end = is_same_utc_day start end
matches_guarantee_period weekly start end = day_diff_is start end 6
matches_guarantee_period monthly start end =
    get_utc_full_year start == get_utc_full_year end
    && (get_utc_month start == get_utc_month end
        && (get_utc_date start == 1
            && get_utc_date end
              == days_in_utc_month (get_utc_full_year start) (get_utc_month start)))
