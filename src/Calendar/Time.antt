-- ===== src/Calendar/Time.antt =====
-- `localtime` gives the time of the Gregorian calendar, counted from day to day.
use mathlib.Core.Path.{subst, ap₂}
use lunaria_os.Base.{ℕ, zero, suc, ◌+◌, ◌*◌, ◌/◌, ◌%◌, ◌<◌, ◌≡◌, refl, sym, ap, ◌∙◌, some, arith}
use lunaria_os.Base.Int.{ℤ, pos, sub_ℕ, ◌+ℤ◌, ◌-ℤ◌, ◌*ℤ◌}
use lunaria_os.Calendar.{Tm, localtime, at_second, fields, days_of, weekday, era_and_day}
use lunaria_os.Calendar.Year.{next_day}
use lunaria_os.Calendar.Days.{date_of, date_of-suc, civil}

-- the date some days after the first of January 1970
pub days_after : ℕ → ℕ × ℕ × ℕ
days_after zero = (1970, 1, 1)
days_after (suc k) = next_day (days_after k)

days_after_lem : (k : ℕ) → days_after k ≡ date_of (k + 719468)
unfolding days_after
days_after_lem zero = refl
days_after_lem (suc k) =
    ap next_day (days_after_lem k) ∙ sym (date_of-suc (k + 719468)) ∙ ap date_of (omega arith)

-- the date, the weekday and the time of the second `n` of the calendar
pub record IsTimeOf (n : ℕ) (t : Tm) : Type 0 where
  pub of_year : t.year ≡ pos (days_after (n / 86400)).0 -ℤ pos 1900
  pub of_month : t.mon ≡ pos (days_after (n / 86400)).1 -ℤ pos 1
  pub of_day : t.mday ≡ pos (days_after (n / 86400)).2
  pub of_weekday : t.wday ≡ pos ((n / 86400 + 4) % 7)
  pub of_time :
      (hour : ℕ) × (min : ℕ) × (sec : ℕ) × (t.hour ≡ pos hour)
      × (t.min ≡ pos min)
      × (t.sec ≡ pos sec)
      × (hour * 3600 + min * 60 + sec ≡ n % 86400)
      × (hour < 24)
      × (min < 60)
      × (sec < 60)

pos-sum : (a b : ℕ) → pos a +ℤ pos b ≡ pos (a + b)
unfolding ◌+ℤ◌
pos-sum a b = ground arith

pos-product : (a b : ℕ) → pos a *ℤ pos b ≡ pos (a * b)
unfolding ◌*ℤ◌
pos-product a b = difference (a * b) (a * b + 0 * 0) (a * 0 + 0 * b) (omega arith) (omega arith)
  where
    difference : (c x y : ℕ) → x ≡ c → y ≡ 0 → sub_ℕ x y ≡ pos c
    difference c x y e e' = ground (arith, e, e')

era_lem :
    (k : ℕ)
    → era_and_day (pos k +ℤ pos 719468) ≡ (pos ((k + 719468) / 146097), (k + 719468) % 146097)
unfolding era_and_day
era_lem k = ap era_and_day (pos-sum k 719468)

weekday_lem : (k : ℕ) → weekday (pos k +ℤ pos 4) ≡ (k + 4) % 7
unfolding weekday
weekday_lem k = ap weekday (pos-sum k 4)

localtime-fields :
    (n : ℕ)
    → localtime (some (pos n))
      ≡ fields
          (n % 86400)
          ((n / 86400 + 4) % 7)
          (pos ((n / 86400 + 719468) / 146097), (n / 86400 + 719468) % 146097)
unfolding localtime at_second days_of
localtime-fields n = ap₂ (fields (n % 86400)) (weekday_lem (n / 86400)) (era_lem (n / 86400))

year_sum : (y era b : ℕ) → pos y +ℤ pos era *ℤ pos 400 +ℤ pos b ≡ pos (y + era * 400 + b)
year_sum y era b =
    ap (λ (c : ℤ). pos y +ℤ c +ℤ pos b) (pos-product era 400)
    ∙ ap (λ (c : ℤ). c +ℤ pos b) (pos-sum y (era * 400))
    ∙ pos-sum (y + era * 400) b

fields-IsTimeOf :
    (n k : ℕ)
    → k ≡ n / 86400
    → IsTimeOf n (
        fields
          (n % 86400)
          ((n / 86400 + 4) % 7)
          (pos ((k + 719468) / 146097), (k + 719468) % 146097))
unfolding fields
fields-IsTimeOf n k e =
    let day : civil ((k + 719468) / 146097) ((k + 719468) % 146097) ≡ days_after (n / 86400) =
      sym (days_after_lem k) ∙ ap days_after e in
    record {
      of_year =
          ap (λ (c : ℤ). c -ℤ pos 1900) (year_sum _ _ _)
          ∙ ap (λ (c : ℕ × ℕ × ℕ). pos c.0 -ℤ pos 1900) day;
      of_month = ap (λ (c : ℕ × ℕ × ℕ). pos c.1 -ℤ pos 1) day;
      of_day = ap (λ (c : ℕ × ℕ × ℕ). pos c.2) day;
      of_weekday = refl;
      of_time = (
        n % 86400 / 3600,
        n % 86400 % 3600 / 60,
        n % 86400 % 60,
        refl,
        refl,
        refl,
        omega arith,
        omega arith,
        omega arith,
        omega arith,
      );
    }

-- For each number of seconds from the first of January 1970 on: `localtime` gives the date that one reaches from that
-- day by going on from day to day by the months and leap years of the Gregorian calendar, the weekday counted from a
-- Thursday on, and the time of the day.
pub localtime-IsTimeOf : (n : ℕ) → IsTimeOf n (localtime (some (pos n)))
localtime-IsTimeOf n =
    subst (IsTimeOf n) (sym (localtime-fields n)) (fields-IsTimeOf n (n / 86400) refl)
