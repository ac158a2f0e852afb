-- ===== src/Calendar/Names.antt =====
-- What the conversions of `strftime` stand for, by a table of them.
use lunaria_os.Base.{
  Option, ◌∙◌, ap, zero, ◌*◌, ◌==◌, arith, drop, if◌then◌else◌, suc, ◌+◌, [], get_or, some, take,
  ◌%◌, ◌<◌, ◌∷◌, ℕ, ◌≡◌, List,
}
use lunaria_os.Base.Int.{ℤ, pos, ◌+ℤ◌}
use lunaria_os.Calendar.{Tm}
use lunaria_os.Calendar.Format.{number_text, months, weekdays, name_at, inserted}

-- the names of the months and of the days of the week, three letters each
abbrev month_letters : List ℕ
month_letters =
    b'J' ∷ b'a' ∷ b'n' ∷ b'F' ∷ b'e' ∷ b'b' ∷ b'M' ∷ b'a' ∷ b'r' ∷ b'A' ∷ b'p' ∷ b'r' ∷ b'M' ∷ b'a'
    ∷ b'y' ∷ b'J' ∷ b'u' ∷ b'n' ∷ b'J' ∷ b'u' ∷ b'l' ∷ b'A' ∷ b'u' ∷ b'g' ∷ b'S' ∷ b'e' ∷ b'p'
    ∷ b'O' ∷ b'c' ∷ b't' ∷ b'N' ∷ b'o' ∷ b'v' ∷ b'D' ∷ b'e' ∷ b'c' ∷ []

abbrev day_letters : List ℕ
day_letters =
    b'S' ∷ b'u' ∷ b'n' ∷ b'M' ∷ b'o' ∷ b'n' ∷ b'T' ∷ b'u' ∷ b'e' ∷ b'W' ∷ b'e' ∷ b'd' ∷ b'T' ∷ b'h'
    ∷ b'u' ∷ b'F' ∷ b'r' ∷ b'i' ∷ b'S' ∷ b'a' ∷ b't' ∷ []

abbrev letters : List ℕ → ℕ → List ℕ
letters ls i = take 3 (drop (3 * i) ls)

tabulate : ℕ → ℕ → (ℕ → List ℕ) → List (List ℕ)
tabulate zero s f = []
tabulate (suc n) s f = f s ∷ tabulate n (s + 1) f

tabulate_lem : (n s i : ℕ) (f : ℕ → List ℕ) → i < n → get_or (tabulate n s f) i [] ≡ f (s + i)
unfolding tabulate
tabulate_lem zero s i f lt = absurd (none_left i lt)
  where
    none_left : (i : ℕ) → i < 0 → ⊥
    none_left i h = omega (arith, h)
tabulate_lem (suc n) s zero f lt = ap f (omega arith)
tabulate_lem (suc n) s (suc i) f lt =
    tabulate_lem n (s + 1) i f (omega (arith, lt)) ∙ ap f (omega arith)

from_zero : (i : ℕ) → 0 + i ≡ i
from_zero i = omega arith

months_lem : (m : ℕ) → get_or months (m % 12) [] ≡ letters month_letters (m % 12)
unfolding tabulate
months_lem m =
    tabulate_lem 12 0 (m % 12) (letters month_letters) (omega arith)
    ∙ ap (letters month_letters) (from_zero (m % 12))

weekdays_lem : (w : ℕ) → get_or weekdays (w % 7) [] ≡ letters day_letters (w % 7)
unfolding tabulate
weekdays_lem w =
    tabulate_lem 7 0 (w % 7) (letters day_letters) (omega arith)
    ∙ ap (letters day_letters) (from_zero (w % 7))

-- the conversions with the text for each
abbrev pub table :
    List ℕ → List ℕ → List ℕ → List ℕ → List ℕ → List ℕ → List ℕ → List ℕ → List (ℕ × List ℕ)
table day month y n d h i s =
    (b'a', day)
    ∷ (b'b', month)
    ∷ (b'Y', y)
    ∷ (b'm', n)
    ∷ (b'd', d)
    ∷ (b'H', h)
    ∷ (b'M', i)
    ∷ (b'S', s)
    ∷ (b'%', b'%' ∷ [])
    ∷ []

-- The conversions of a time with the month `m`, from 0 on, and the weekday `w`: a number stands as `itoa` writes
-- it, without leading zeros.
abbrev pub conversions : Tm → ℕ → ℕ → List (ℕ × List ℕ)
conversions tm m w =
    table (letters day_letters (w % 7)) (letters month_letters (m % 12))
      (number_text (tm.year +ℤ pos 1900)) (number_text (pos (m + 1))) (number_text tm.mday)
      (number_text tm.hour) (number_text tm.min) (number_text tm.sec)

-- the text for the byte `k` behind a percent sign: the two as they are, if it is no conversion
abbrev pub stands_for : List (ℕ × List ℕ) → ℕ → List ℕ
stands_for [] k = b'%' ∷ k ∷ []
stands_for ((c, t) ∷ rest) k = let others = stands_for rest k in if k == c then t else others

next_month : (v : ℤ) (m : ℕ) → v ≡ pos m → v +ℤ pos 1 ≡ pos (m + 1)
unfolding ◌+ℤ◌
next_month v m e = ground (arith, e)

-- the tests of the code come in another order than the table
chain :
    (k : ℕ) (y n d h i s : List ℕ) (b a : Option (List ℕ)) (bs ds : List ℕ)
    → b ≡ some bs
    → a ≡ some ds
    → (if k == b'Y'
        then some y
        else if k == b'm'
        then some n
        else if k == b'd'
        then some d
        else if k == b'H'
        then some h
        else if k == b'M'
        then some i
        else if k == b'S'
        then some s
        else if k == b'b'
        then b
        else if k == b'a'
        then a
        else if k == b'%'
        then some (b'%' ∷ [])
        else some (b'%' ∷ k ∷ []))
      ≡ some (stands_for (table ds bs y n d h i s) k)
chain k y n d h i s b a bs ds eb ea = ground (arith, eb, ea)

pub inserted_lem :
    (tm : Tm) (m w k : ℕ)
    → tm.mon ≡ pos m
    → tm.wday ≡ pos w
    → inserted tm k ≡ some (stands_for (conversions tm m w) k)
unfolding inserted
inserted_lem tm m w k em ew =
    chain k (number_text (tm.year +ℤ pos 1900)) (number_text (tm.mon +ℤ pos 1))
      (number_text tm.mday) (number_text tm.hour) (number_text tm.min) (number_text tm.sec)
      (name_at months 12 tm.mon) (name_at weekdays 7 tm.wday) (letters month_letters (m % 12))
      (letters day_letters (w % 7)) (ap (name_at months 12) em ∙ ap some (months_lem m))
      (ap (name_at weekdays 7) ew ∙ ap some (weekdays_lem w))
    ∙ ap
        (λ (t : List ℕ). some (
          stands_for
            (table (letters day_letters (w % 7)) (letters month_letters (m % 12))
              (number_text (tm.year +ℤ pos 1900)) t (number_text tm.mday) (number_text tm.hour)
              (number_text tm.min) (number_text tm.sec))
            k))
        (ap number_text (next_month tm.mon m em))
