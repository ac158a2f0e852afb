-- ===== src/Calendar/Days.antt =====
-- The days that `localtime` counts follow each other as those of the Gregorian calendar do.
use mathlib.Core.Path.{subst, ap₂}
use native.Mathlib.Nat.{add_comm}
use lunaria_os.Base.{
  ℕ, ◌+◌, ◌-◌, ◌/◌, ◌%◌, ◌≤◌, ◌<◌, ◌≡◌, refl, sym, ap, ◌∙◌, ltb→lt, Bool, true, false, ◌&&◌, ◌||◌,
  ltb, leb, ◌==◌, if◌then◌else◌, arith, Bool-cases, inl, inr,
}
use lunaria_os.Base.Table.{holds_under, holds_under_lem}
use lunaria_os.Calendar.{yoe_of, doy_of, mp_of, mday_of}
use lunaria_os.Calendar.Year.{
  start, yoe_lem, yoe_unique, start_monotone, next_day, date, len, leap_lem, year_days, step_before,
  step_february, step_march,
}

-- a day later in the same year, from March on
later : ℕ → Bool
later doy =
    let len =
      if mp_of doy == 11
      then 29
      else if (mp_of doy == 1) || (mp_of doy == 3) || (mp_of doy == 6) || (mp_of doy == 8)
      then 30
      else 31 in
    if ltb (mday_of doy) len
    then (mp_of (doy + 1) == mp_of doy) && (mday_of (doy + 1) == mday_of doy + 1)
    else (mp_of (doy + 1) == mp_of doy + 1) && (mday_of (doy + 1) == 1)

later_table : holds_under 365 later ≡ true
unfolding holds_under later
later_table = refl

later_lem :
    (doy : ℕ)
    → doy < 365
    → (if ltb (mday_of doy) (len (mp_of doy))
        then (mp_of (doy + 1) == mp_of doy) && (mday_of (doy + 1) == mday_of doy + 1)
        else (mp_of (doy + 1) == mp_of doy + 1) && (mday_of (doy + 1) == 1))
      ≡ true
unfolding later
later_lem doy lt = holds_under_lem 365 later doy later_table lt

-- the days of the year `y`, from March on
abbrev days : ℕ → ℕ
days y = start (y + 1) - start y

february_day : (doy : ℕ) → mp_of doy ≡ 11 → doy + 1 ≡ mday_of doy + 337
february_day doy e = omega (arith, e)

-- The next day in the same year from March on,
in_year :
    (era y doy : ℕ)
    → y ≤ 399
    → doy + 1 < days y
    → date era y (mp_of (doy + 1)) (mday_of (doy + 1))
      ≡ next_day (date era y (mp_of doy) (mday_of doy))
in_year era y doy le lt = elim (Bool-cases (leb (mp_of doy) 10)) [
  | inl e ↦
      step_before era y (mp_of doy) (mday_of doy) (mp_of (doy + 1)) (mday_of (doy + 1))
        (ground (arith, e)) (later_lem doy (omega (arith, lt, year_days y)))
  | inr e ↦
      let eleven : mp_of doy ≡ 11 = eleven_of doy (days y) (year_days y).1 lt e in
      subst
        (λ (mp : ℕ).
          date era y (mp_of (doy + 1)) (mday_of (doy + 1)) ≡ next_day (date era y mp (mday_of doy)))
        (sym eleven)
        (step_february era y doy (mday_of doy) (mp_of (doy + 1)) (mday_of (doy + 1)) (days y)
          (february_day doy eleven)
          (subst
            (λ (mp : ℕ).
              (if ltb (mday_of doy) (len mp)
                then (mp_of (doy + 1) == mp) && (mday_of (doy + 1) == mday_of doy + 1)
                else (mp_of (doy + 1) == mp + 1) && (mday_of (doy + 1) == 1))
              ≡ true)
            eleven (later_lem doy (omega (arith, lt, year_days y))))
          (leap_lem era y le) (year_days y).0 lt (year_days y).1)
]
  where
    eleven_of : (doy n : ℕ) → n ≤ 366 → doy + 1 < n → leb (mp_of doy) 10 ≡ false → mp_of doy ≡ 11
    eleven_of doy n h h' e = ground (arith, e)

-- and the first of the next one.
year_end :
    (era y doy : ℕ)
    → y ≤ 399
    → doy + 1 ≡ days y
    → date era (y + 1) 0 1 ≡ next_day (date era y (mp_of doy) (mday_of doy))
year_end era y doy le last =
    let eleven = eleven_of doy (days y) (year_days y).0 (year_days y).1 last in
    subst (λ (mp : ℕ). date era (y + 1) 0 1 ≡ next_day (date era y mp (mday_of doy))) (sym eleven)
      (step_march era y doy (mday_of doy) (days y) (february_day doy eleven) (leap_lem era y le)
        (year_days y).0 last (year_days y).1)
  where
    eleven_of : (doy n : ℕ) → 365 ≤ n → n ≤ 366 → doy + 1 ≡ n → mp_of doy ≡ 11
    eleven_of doy n h h' e = omega (arith, h, h', e)

-- the date of the day `doe` of an era of 146097 days, which begins on the first of March
abbrev pub civil : ℕ → ℕ → ℕ × ℕ × ℕ
civil era doe = date era (yoe_of doe) (mp_of (doy_of doe)) (mday_of (doy_of doe))

doy_start : (doe : ℕ) → doe < 146097 → doy_of doe + start (yoe_of doe) ≡ doe
doy_start doe lt = omega (arith, yoe_lem doe lt)

civil_year :
    (era y doy doe : ℕ)
    → doe < 146097
    → doe ≡ start y + doy
    → doy < days y
    → civil era doe ≡ date era y (mp_of doy) (mday_of doy)
civil_year era y doy doe lt e in_days =
    let year =
      yoe_unique (yoe_of doe) y doe (yoe_lem doe lt).0 (yoe_lem doe lt).1 (omega (arith, e))
        (omega (arith, e, in_days)) in
    let day : doy_of doe ≡ doy = omega (arith, doy_start doe lt, ap start year, e) in
    ap₂ (λ (a b : ℕ). date era a (mp_of b) (mday_of b)) year day

next_of :
    (era doe y doy : ℕ)
    → doe + 1 < 146097
    → y ≤ 399
    → start y + doy ≡ doe
    → doy < days y
    → civil era (doe + 1) ≡ next_day (date era y (mp_of doy) (mday_of doy))
next_of era doe y doy lt le at in_days = elim (Bool-cases (ltb (doy + 1) (days y))) [
  | inl e ↦
      civil_year era y (doy + 1) (doe + 1) lt (omega (arith, at)) (ltb→lt _ _ e)
      ∙ in_year era y doy le (ltb→lt _ _ e)
  | inr e ↦
      let last = last_day doy (days y) in_days e in
      civil_year era (y + 1) 0 (doe + 1) lt (omega (arith, at, last, start_monotone y (y + 1)))
        (omega (arith, year_days (y + 1)))
      ∙ year_end era y doy le last
]
  where
    last_day : (doy n : ℕ) → doy < n → ltb (doy + 1) n ≡ false → doy + 1 ≡ n
    last_day doy n lt e = ground (arith, e)

civil_next : (era doe : ℕ) → doe + 1 < 146097 → civil era (doe + 1) ≡ next_day (civil era doe)
civil_next era doe lt =
    let y = yoe_lem doe (omega (arith, lt)) in
    let at = doy_start doe (omega (arith, lt)) in
    next_of era doe (yoe_of doe) (doy_of doe) lt y.2
      (add_comm (start (yoe_of doe)) (doy_of doe) ∙ at)
      (bounded doe (doy_of doe) (start (yoe_of doe)) (start (yoe_of doe + 1)) at y.1)
  where
    bounded : (doe doy a b : ℕ) → doy + a ≡ doe → doe < b → doy < b - a
    bounded doe doy a b e lt = omega (arith, e, lt)

era_end : (era : ℕ) → civil (era + 1) 0 ≡ next_day (civil era 146096)
era_end era = ground arith

-- the date of the day `z` after the first of March of the year 0
abbrev pub date_of : ℕ → ℕ × ℕ × ℕ
date_of z = civil (z / 146097) (z % 146097)

pub date_of-suc : (z : ℕ) → date_of (z + 1) ≡ next_day (date_of z)
date_of-suc z = elim (Bool-cases (ltb (z % 146097 + 1) 146097)) [
  | inl e ↦
      ap₂ civil (quotient z (ltb→lt _ _ e)) (remainder z (ltb→lt _ _ e))
      ∙ civil_next (z / 146097) (z % 146097) (ltb→lt _ _ e)
  | inr e ↦
      ap₂ civil (quotient' z (full z e)) (remainder' z (full z e))
      ∙ era_end (z / 146097)
      ∙ ap (λ (t : ℕ). next_day (civil (z / 146097) t)) (sym (full z e))
]
  where
    full : (z : ℕ) → ltb (z % 146097 + 1) 146097 ≡ false → z % 146097 ≡ 146096
    full z e = ground (arith, e)

    quotient : (z : ℕ) → z % 146097 + 1 < 146097 → (z + 1) / 146097 ≡ z / 146097
    quotient z h = omega (arith, h)

    remainder : (z : ℕ) → z % 146097 + 1 < 146097 → (z + 1) % 146097 ≡ z % 146097 + 1
    remainder z h = omega (arith, h)

    quotient' : (z : ℕ) → z % 146097 ≡ 146096 → (z + 1) / 146097 ≡ z / 146097 + 1
    quotient' z h = omega (arith, h)

    remainder' : (z : ℕ) → z % 146097 ≡ 146096 → (z + 1) % 146097 ≡ 0
    remainder' z h = omega (arith, h)
