-- ===== src/Calendar.antt =====
-- Time in the C library of the programs, src/home/lib/libc.c: `localtime` and `gmtime`. The number of
-- seconds is an integer, and C's division, which rounds to zero, is written out for both signs.
-- It is a `long` of 32 bits there, so that nothing on the way wraps.
pub mod Year
pub mod Days
pub mod Time
pub mod Format
pub mod Names
pub mod Puts
pub mod Formatted
mod Tests
use lunaria_os.Base.{
  ℕ, zero, suc, ◌+◌, ◌-◌, ◌*◌, ◌/◌, ◌%◌, ◌^◌, ◌≤◌, ◌<◌, ◌≡◌, refl, sym, ap, ◌∙◌, ltb→lt, Bool, true,
  false, not, ◌&&◌, ◌||◌, Option, none, some, ltb, leb, ◌==◌, if◌then◌else◌, arith, Bool-cases, inl,
  inr,
}
use lunaria_os.Base.Int.{ℤ, pos, negsuc, sub_ℕ, ◌+ℤ◌, ◌-ℤ◌, ◌*ℤ◌}

-- `struct tm`
pub record Tm : Type 0 where
  pub sec : ℤ
  pub min : ℤ
  pub hour : ℤ
  pub mday : ℤ
  pub mon : ℤ
  pub year : ℤ
  pub wday : ℤ
  pub yday : ℤ
  pub isdst : ℤ

-- the days of a number of seconds, and the seconds that are left
unfoldable pub days_of : ℤ → ℤ × ℕ
days_of (pos n) = (pos (n / 86400), n % 86400)
days_of (negsuc n) =
    if (n + 1) % 86400 == 0
    then (sub_ℕ 0 ((n + 1) / 86400), 0)
    else (sub_ℕ 0 ((n + 1) / 86400 + 1), 86400 - (n + 1) % 86400)

-- the day of the week, for the number of days and 4
unfoldable pub weekday : ℤ → ℕ
weekday (pos n) = n % 7
weekday (negsuc n) = if (n + 1) % 7 == 0 then 0 else 7 - (n + 1) % 7

-- the era of a day, and the day in it: `era` and `doe`
unfoldable pub era_and_day : ℤ → ℤ × ℕ
era_and_day (pos z) = (pos (z / 146097), z % 146097)
era_and_day (negsuc z) = (sub_ℕ 0 ((z + 146097) / 146097), (z + 146097) / 146097 * 146097 - (z + 1))

-- the year of the era, the day of the year from March on, the month from March on, the day of the month
abbrev pub yoe_of : ℕ → ℕ
yoe_of doe = (doe - doe / 1460 + doe / 36524 - doe / 146096) / 365

abbrev pub doy_of : ℕ → ℕ
doy_of doe = doe - (365 * yoe_of doe + yoe_of doe / 4 - yoe_of doe / 100)

abbrev pub mp_of : ℕ → ℕ
mp_of doy = (5 * doy + 2) / 153

abbrev pub mday_of : ℕ → ℕ
mday_of doy = doy - (153 * mp_of doy + 2) / 5 + 1

abbrev pub month_of : ℕ → ℕ
month_of mp = if ltb mp 10 then mp + 3 else mp - 9

-- the fields for the day `doe` of the era, for the seconds of the day and the day of the week
unfoldable pub fields : ℕ → ℕ → ℤ × ℕ → Tm
fields rem wday (era, doe) =
    let month = month_of (mp_of (doy_of doe)) in
    record {
      sec = pos (rem % 60);
      min = pos (rem % 3600 / 60);
      hour = pos (rem / 3600);
      mday = pos (mday_of (doy_of doe));
      mon = pos month -ℤ pos 1;
      year = pos (yoe_of doe) +ℤ era *ℤ pos 400 +ℤ pos (if leb month 2 then 1 else 0) -ℤ pos 1900;
      wday = pos wday;
      yday = pos 0;
      isdst = pos 0;
    }

unfoldable pub at_second : ℤ → Tm
at_second secs =
    let (days, rem) = days_of secs in
    fields rem (weekday (days +ℤ pos 4)) (era_and_day (days +ℤ pos 719468))

-- `none` is the null pointer.
unfoldable pub localtime : Option ℤ → Tm
localtime none = at_second (pos 0)
localtime (some t) = at_second t

unfoldable pub gmtime : Option ℤ → Tm
gmtime t = localtime t
