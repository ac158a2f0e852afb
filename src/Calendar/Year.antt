-- ===== src/Calendar/Year.antt =====
-- The years of the calendar against those that `localtime` counts from the first of March on.
use lunaria_os.Base.{
  ℕ, ◌+◌, ◌-◌, ◌*◌, ◌/◌, ◌%◌, ◌≤◌, ◌<◌, ◌≡◌, Bool, true, false, not, ◌&&◌, ◌||◌, ltb, leb, ◌==◌,
  if◌then◌else◌, arith, Bool-cases, inl, inr,
}
use lunaria_os.Calendar.{yoe_of, month_of}

-- days before the year `y` of an era
abbrev pub start : ℕ → ℕ
start y = 365 * y + y / 4 - y / 100 + y / 400

pub yoe_lem :
    (doe : ℕ)
    → doe < 146097
    → (start (yoe_of doe) ≤ doe) × (doe < start (yoe_of doe + 1)) × (yoe_of doe ≤ 399)
yoe_lem doe h = omega (arith, h)

pub start_monotone : (y y' : ℕ) → y ≤ y' → start y ≤ start y'
start_monotone y y' le = omega (arith, le)

pub yoe_unique :
    (y y' doe : ℕ)
    → start y ≤ doe
    → doe < start (y + 1)
    → start y' ≤ doe
    → doe < start (y' + 1)
    → y ≡ y'
yoe_unique y y' doe a b c d = elim (Bool-cases (ltb y y')) [
  | inl e ↦ absurd (
      below (start y) (start (y + 1)) (start y') b c
        (start_monotone (y + 1) y' (ground (arith, e))))
  | inr e ↦ elim (Bool-cases (ltb y' y)) [
    | inl e' ↦ absurd (
        below (start y') (start (y' + 1)) (start y) d a
          (start_monotone (y' + 1) y (ground (arith, e'))))
    | inr e' ↦ ground (arith, e, e')
  ]
]
  where
    below : (p q r : ℕ) → doe < q → r ≤ doe → q ≤ r → ⊥
    below p q r h h' h'' = omega (arith, h, h', h'')

-- the Gregorian calendar
abbrev pub is_leap : ℕ → Bool
is_leap y = (y % 4 == 0) && (not (y % 100 == 0) || (y % 400 == 0))

abbrev pub month_length : ℕ → ℕ → ℕ
month_length y m =
    if m == 2
    then (if is_leap y then 29 else 28)
    else if (m == 4) || (m == 6) || (m == 9) || (m == 11)
    then 30
    else 31

-- the year, the month and the day of the next day
abbrev pub next_day : ℕ × ℕ × ℕ → ℕ × ℕ × ℕ
next_day (y, m, d) =
    if ltb d (month_length y m)
    then (y, m, d + 1)
    else if m == 12
    then (y + 1, 1, 1)
    else (y, m + 1, 1)

abbrev pub date : ℕ → ℕ → ℕ → ℕ → ℕ × ℕ × ℕ
date era yoe mp d = (yoe + era * 400 + (if leb (month_of mp) 2 then 1 else 0), month_of mp, d)

abbrev pub len : ℕ → ℕ
len mp =
    if mp == 11 then 29 else if (mp == 1) || (mp == 3) || (mp == 6) || (mp == 8) then 30 else 31

pub leap_lem :
    (era y : ℕ) → y ≤ 399 → is_leap (y + era * 400 + 1) ≡ (start (y + 1) - start y == 366)
leap_lem era y le = ground arith

pub year_days : (y : ℕ) → (365 ≤ start (y + 1) - start y) × (start (y + 1) - start y ≤ 366)
year_days y = omega arith

-- the length of each month but February
month_length_of : (y mp : ℕ) → mp ≤ 10 → month_length y (month_of mp) ≡ len mp
month_length_of y mp le = ground arith

-- The next day in the same year from March on, in a month before February.
pub step_before :
    (era y mp d mp' d' : ℕ)
    → mp ≤ 10
    → (if ltb d (len mp) then (mp' == mp) && (d' == d + 1) else (mp' == mp + 1) && (d' == 1)) ≡ true
    → date era y mp' d' ≡ next_day (date era y mp d)
step_before era y mp d mp' d' le next = elim (Bool-cases (ltb d (len mp))) [
  | inl e ↦ same mp' d' (ground (arith, next, e)) (ground (arith, next, e)) e
  | inr e ↦ first mp' d' (ground (arith, next, e)) (ground (arith, next, e)) e
]
  where
    year : ℕ
    year = y + era * 400 + (if leb (month_of mp) 2 then 1 else 0)

    same :
        (mp' d' : ℕ)
        → mp' ≡ mp
        → d' ≡ d + 1
        → ltb d (len mp) ≡ true
        → date era y mp' d' ≡ next_day (date era y mp d)
    same mp' d' e e' h = ground (
      arith,
      e,
      e',
      h,
      month_length_of (y + era * 400 + (if leb (month_of mp) 2 then 1 else 0)) mp le,
    )

    first :
        (mp' d' : ℕ)
        → mp' ≡ mp + 1
        → d' ≡ 1
        → ltb d (len mp) ≡ false
        → date era y mp' d' ≡ next_day (date era y mp d)
    first mp' d' e e' h = ground (
      arith,
      e,
      e',
      h,
      month_length_of (y + era * 400 + (if leb (month_of mp) 2 then 1 else 0)) mp le,
    )

-- In February,
pub step_february :
    (era y doy d mp' d' n : ℕ)
    → doy + 1 ≡ d + 337
    → (if ltb d 29 then (mp' == 11) && (d' == d + 1) else (mp' == 12) && (d' == 1)) ≡ true
    → is_leap (y + era * 400 + 1) ≡ (n == 366)
    → 365 ≤ n
    → doy + 1 < n
    → n ≤ 366
    → date era y mp' d' ≡ next_day (date era y 11 d)
step_february era y doy d mp' d' n at next leap n365 lt n366 = ground (arith, next, leap)

-- and on its last day.
pub step_march :
    (era y doy d n : ℕ)
    → doy + 1 ≡ d + 337
    → is_leap (y + era * 400 + 1) ≡ (n == 366)
    → 365 ≤ n
    → doy + 1 ≡ n
    → n ≤ 366
    → date era (y + 1) 0 1 ≡ next_day (date era y 11 d)
step_march era y doy d n at leap n365 last n366 = ground (arith, leap)
