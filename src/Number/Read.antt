-- ===== src/Number/Read.antt =====
-- `strtoull` and its kin read the number that the text spells.
use lunaria_os.Base.{
  ℕ, ◌-◌, ◌%◌, ◌^◌, ◌<◌, ◌≡◌, ap, ◌∙◌, Bool, true, false, if◌then◌else◌, arith, List, ◌∷◌, ◌++◌,
}
use lunaria_os.Base.Int.{ℤ, pos, sub_ℕ}
use lunaria_os.Number.{sign, strtoull, strtol, as_signed}
use lunaria_os.Number.Digits.{Digit, numerals, number, AreDigits, StopsAt, digits_loop-numerals}
use lunaria_os.Number.Notation.{
  Sign, Notation, sign_text, marker, base_argument, radix_of, is_minus, IsNotation, AreSpaces,
  skip_white-append, sign-text, radix-marker, first_lem, no_space, base_lem, assembled,
}

-- a number as a program's text has it
pub record Numeral : Type 0 where
  pub spaces : List ℕ
  pub mark : Sign
  pub notation : Notation
  pub first : Digit
  pub others : List Digit
  pub rest : List ℕ

abbrev pub spelled : Numeral → List ℕ
spelled t =
    t.spaces
    ++ (sign_text t.mark ++ (marker t.notation ++ (numerals (t.first ∷ t.others) ++ t.rest)))

abbrev pub magnitude : Numeral → ℕ
magnitude t = number (radix_of t.notation) (t.first ∷ t.others)

pub record IsNumeral (t : Numeral) : Type 0 where
  pub spaces : AreSpaces t.spaces
  pub notation : IsNotation t.notation t.first t.others t.rest
  pub digits : AreDigits (radix_of t.notation) (t.first ∷ t.others)
  pub stop : StopsAt (radix_of t.notation) t.rest

-- For white space, a sign or none, and digits of a base in one of the notations of C (the base given, from 1 to 36, or
-- a marker 0x with base 0 or 16, or octal and decimal numbers with base 0), with no digit of that base behind them: `strtoull` gives the number in positional notation modulo 2 ^ 64, negated for a minus, and the text behind the
-- digits.
pub strtoull-spelled :
    (t : Numeral)
    → IsNumeral t
    → strtoull (spelled t) (base_argument t.notation) ≡ (
      if is_minus t.mark then (2 ^ 64 - magnitude t % 2 ^ 64) % 2 ^ 64 else magnitude t % 2 ^ 64,
      t.rest,
    )
strtoull-spelled t h =
    let body = marker t.notation ++ (numerals (t.first ∷ t.others) ++ t.rest) in
    let begins = first_lem t.notation t.first (numerals t.others ++ t.rest) in
    assembled (spelled t) body (numerals (t.first ∷ t.others) ++ t.rest) t.rest
      (base_argument t.notation) (radix_of t.notation) (magnitude t % 2 ^ 64) (is_minus t.mark) true
      (ap sign (
          skip_white-append t.spaces (sign_text t.mark ++ body) h.spaces
            (no_space t.mark body begins))
        ∙ sign-text t.mark body begins)
      (radix-marker t.notation t.first t.others t.rest h.notation h.digits)
      (digits_loop-numerals (radix_of t.notation) 0 false (t.first ∷ t.others) t.rest
          (base_lem t.notation t.first t.others t.rest h.notation) (omega arith) h.digits h.stop
        ∙ ap (λ (x : ℕ). (x % 2 ^ 64, true, t.rest)) (omega arith))

-- For white space, a sign or none, and digits of a base in one of the notations of C (the base given, from 1 to 36, or
-- a marker 0x with base 0 or 16, or octal and decimal numbers with base 0), with no digit of that base behind them: if the number is below 2 ^ 31, `strtol` gives it with its sign, and the text behind its digits.
pub strtol-spelled :
    (t : Numeral)
    → IsNumeral t
    → magnitude t < 2 ^ 31
    → strtol (spelled t) (base_argument t.notation)
      ≡ ((if is_minus t.mark then sub_ℕ 0 (magnitude t) else pos (magnitude t)), t.rest)
unfolding strtol
strtol-spelled t h lt =
    ap (λ (r : ℕ × List ℕ). (as_signed 32 r.0, r.1)) (strtoull-spelled t h)
    ∙ ap (λ (x : ℤ). (x, t.rest)) (fits (is_minus t.mark) (magnitude t) lt)
  where
    fits :
        (neg : Bool) (x : ℕ)
        → x < 2 ^ 31
        → as_signed 32 (if neg then (2 ^ 64 - x % 2 ^ 64) % 2 ^ 64 else x % 2 ^ 64)
          ≡ (if neg then sub_ℕ 0 x else pos x)
    fits true x lt = ground (arith, lt)
    fits false x lt = ground (arith, lt)
