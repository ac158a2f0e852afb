-- ===== src/Calendar/Tests.antt =====
-- Runs of `localtime` and `strftime`, and their properties at the leap day of the year 2000 and at a
-- buffer that is too short.
use lunaria_os.Base.{ℕ, ◌≡◌, refl, some, none, List, [], ◌∷◌, Bytes, arith}
use lunaria_os.Str.{itoa, signed, finish, put_digits, swap_loop}
use lunaria_os.Calendar.Format.{string_at, number_text, inserted, format_loop, strftime}
use lunaria_os.Calendar.Names.{conversions, stands_for}
use lunaria_os.Calendar.Formatted.{expand, IsCut, strftime-IsCut}
use lunaria_os.Base.Int.{pos, negsuc, ◌+ℤ◌, ◌-ℤ◌, ◌*ℤ◌}
use lunaria_os.Calendar.{Tm, at_second, days_of, weekday, era_and_day, fields, localtime, gmtime}
use lunaria_os.Calendar.Time.{IsTimeOf, localtime-IsTimeOf}

localtime-IsTimeOf_example : IsTimeOf 951_782_400 (localtime (some (pos 951_782_400)))
localtime-IsTimeOf_example = localtime-IsTimeOf 951_782_400

-- 1970-01-01 00:00:00, a Thursday
epoch_test : gmtime none ≡ record {
  sec = pos 0;
  min = pos 0;
  hour = pos 0;
  mday = pos 1;
  mon = pos 0;
  year = pos 70;
  wday = pos 4;
  yday = pos 0;
  isdst = pos 0;
}
unfolding localtime gmtime at_second days_of weekday era_and_day fields ◌+ℤ◌ ◌-ℤ◌ ◌*ℤ◌
epoch_test = refl

-- a second before it
before_epoch_test : localtime (some (negsuc 0)) ≡ record {
  sec = pos 59;
  min = pos 59;
  hour = pos 23;
  mday = pos 31;
  mon = pos 11;
  year = pos 69;
  wday = pos 3;
  yday = pos 0;
  isdst = pos 0;
}
unfolding localtime at_second days_of weekday era_and_day fields ◌+ℤ◌ ◌-ℤ◌ ◌*ℤ◌
before_epoch_test = refl

abbrev epoch : Tm
epoch = record {
  sec = pos 0;
  min = pos 0;
  hour = pos 0;
  mday = pos 1;
  mon = pos 0;
  year = pos 70;
  wday = pos 4;
  yday = pos 0;
  isdst = pos 0;
}

-- "%b %d%%", of which five bytes fit
abbrev month_day : List ℕ
month_day = b'%' ∷ b'b' ∷ b' ' ∷ b'%' ∷ b'd' ∷ b'%' ∷ b'%' ∷ []

strftime-IsCut_example :
    (r : Bytes × ℕ) × (strftime (λ i. 255) 6 month_day epoch ≡ some r)
    × IsCut (expand (stands_for (conversions epoch 0 4)) month_day) 6 (λ i. 255) r
strftime-IsCut_example =
    strftime-IsCut (λ i. 255) 6 month_day epoch 0 4 (omega arith) refl refl refl

expand_test :
    expand (stands_for (conversions epoch 0 4)) month_day
    ≡ b'J' ∷ b'a' ∷ b'n' ∷ b' ' ∷ b'1' ∷ b'%' ∷ []
unfolding number_text string_at itoa signed finish put_digits swap_loop ◌+ℤ◌
expand_test = refl

-- With a percent sign at its end the format is read on behind its zero.
lone_percent_test : strftime (λ i. 255) 8 (b'%' ∷ []) epoch ≡ none
unfolding strftime format_loop
lone_percent_test = refl

-- A negative month reads before the table of names.
negative_month_test : inserted (record epoch { mon = negsuc 0 }) b'b' ≡ none
unfolding inserted
negative_month_test = refl
