-- ===== src/Number/Tests.antt =====
-- Runs of `strtoull` and its kin, and their properties at "  -0x7B;" and at "017".
use lunaria_os.Base.{◌≡◌, refl, [], ◌∷◌, true, false, List, ℕ, arith, ◌^◌, ◌-◌}
use lunaria_os.Base.Int.{pos, negsuc}
use lunaria_os.Number.{
  digit_value, digits_loop, is_space, skip_white, sign, radix, strtoull, strtoul, strtoll, strtol,
}
use lunaria_os.Number.Notation.{minus, unsigned, hexadecimal, octal}
use lunaria_os.Number.Read.{Numeral, IsNumeral, strtoull-spelled, strtol-spelled}

abbrev negative : Numeral
negative = record {
  spaces = b' ' ∷ b' ' ∷ [];
  mark = minus;
  notation = hexadecimal 16 false;
  first = record { value = 7; capital = false };
  others = record { value = 11; capital = true } ∷ [];
  rest = b';' ∷ [];
}

negative-IsNumeral : IsNumeral negative
unfolding digit_value is_space
negative-IsNumeral = record {
  spaces = (refl, (refl, tt));
  notation = refl;
  digits = (omega arith, (omega arith, tt));
  stop = omega arith;
}

abbrev minus_text : List ℕ
minus_text = b' ' ∷ b' ' ∷ b'-' ∷ b'0' ∷ b'x' ∷ b'7' ∷ b'B' ∷ b';' ∷ []

strtol-spelled_example : strtol minus_text 16 ≡ (negsuc 122, b';' ∷ [])
strtol-spelled_example = strtol-spelled negative negative-IsNumeral (omega arith)

abbrev octal_numeral : Numeral
octal_numeral = record {
  spaces = [];
  mark = unsigned;
  notation = octal;
  first = record { value = 0; capital = false };
  others = record { value = 1; capital = false } ∷ record { value = 7; capital = false } ∷ [];
  rest = [];
}

octal_numeral-IsNumeral : IsNumeral octal_numeral
unfolding digit_value
octal_numeral-IsNumeral = record {
  spaces = tt;
  notation = (refl, refl);
  digits = (omega arith, (omega arith, (omega arith, tt)));
  stop = omega arith;
}

strtoull-spelled_example : strtoull (b'0' ∷ b'1' ∷ b'7' ∷ []) 0 ≡ (15, [])
strtoull-spelled_example = strtoull-spelled octal_numeral octal_numeral-IsNumeral

-- A marker with no digit behind it is a zero.
bare_prefix_test : strtoull (b'0' ∷ b'x' ∷ []) 0 ≡ (0, b'x' ∷ [])
unfolding digit_value digits_loop is_space skip_white sign radix strtoull
bare_prefix_test = refl

-- With no digits at all the whole text is left.
no_digits_test : strtoll (b' ' ∷ b'-' ∷ b'z' ∷ []) 10 ≡ (pos 0, b' ' ∷ b'-' ∷ b'z' ∷ [])
unfolding digit_value digits_loop is_space skip_white sign radix strtoull strtoll
no_digits_test = refl

minus_one_test : strtoul (b'-' ∷ b'1' ∷ []) 10 ≡ (2 ^ 32 - 1, [])
unfolding digit_value digits_loop is_space skip_white sign radix strtoull strtoul
minus_one_test = refl
