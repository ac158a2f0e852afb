-- ===== src/Number/Notation.antt =====
-- How the text of a number begins, and what `strtoull` makes of that.
use lunaria_os.Base.{
  inr, inl, Bool-cases, none, some, leb, ltb, ◌&&◌, ◌∙◌, ℕ, ◌-◌, ◌%◌, ◌^◌, ◌≤◌, ◌<◌, ◌≡◌, refl, ap,
  Bool, true, false, ◌||◌, ◌==◌, if◌then◌else◌, arith, List, [], ◌∷◌, ◌++◌, ◌≢◌, get_or,
}
use lunaria_os.Number.{
  digit_value, digits_loop, is_space, skip_white, sign, radix, strtoull, has_value,
}
use lunaria_os.Number.Digits.{
  Digit, numeral, numerals, AreDigits, worth, digit_value-numeral, digit_value-worth,
}

-- what stands before the digits of a number, in order: white space, a sign, a marker for the base
pub data Sign : Type 0 where
  unsigned : Sign
  plus : Sign
  minus : Sign

abbrev pub sign_text : Sign → List ℕ
sign_text unsigned = []
sign_text plus = b'+' ∷ []
sign_text minus = b'-' ∷ []

-- The ways to write a base: as the argument of the call, or with the argument 0 (for hexadecimal also
-- 16) in the text.
pub data Notation : Type 0 where
  given : ℕ → Notation
  hexadecimal : ℕ → Bool → Notation
  octal : Notation
  decimal : Notation

abbrev pub base_argument : Notation → ℕ
base_argument (given b) = b
base_argument (hexadecimal b capital) = b
base_argument octal = 0
base_argument decimal = 0

abbrev pub radix_of : Notation → ℕ
radix_of (given b) = b
radix_of (hexadecimal b capital) = 16
radix_of octal = 8
radix_of decimal = 10

abbrev pub marker : Notation → List ℕ
marker (given b) = []
marker (hexadecimal b capital) = b'0' ∷ (if capital then b'X' else b'x') ∷ []
marker octal = []
marker decimal = []

-- whether a zero with nothing behind it but `rest` reads as the marker of a hexadecimal number: an x and a
-- hexadecimal digit follow
abbrev pub opens_hex : Digit → List Digit → List ℕ → Bool
opens_hex d [] rest =
    (d.value == 0)
    && (((get_or rest 0 0 == b'x') || (get_or rest 0 0 == b'X'))
        && ltb (worth (get_or rest 1 0)) 16)
opens_hex d (c ∷ ds) rest = false

-- Every base from 1 to 36 can be given, 16 without a marker too. Octal numbers begin with a digit 0, which may be the
-- only one, decimal ones do not begin with it.
abbrev pub IsNotation : Notation → Digit → List Digit → List ℕ → Type 0
IsNotation (given b) d ds rest = (0 < b) × (b ≤ 36) × ((b == 16) && opens_hex d ds rest ≡ false)
IsNotation (hexadecimal b capital) d ds rest = (b == 0) || (b == 16) ≡ true
IsNotation octal d ds rest = (d.value ≡ 0) × (opens_hex d ds rest ≡ false)
IsNotation decimal d ds rest = d.value ≢ 0

-- a space, or one of the five control characters from tab to carriage return
abbrev pub AreSpaces : List ℕ → Type 0
AreSpaces [] = Unit
AreSpaces (c ∷ cs) = ((c == 32) || (leb 9 c && leb c 13) ≡ true) × AreSpaces cs

is_space_lem : (c : ℕ) → is_space c ≡ ((c == 32) || (leb 9 c && leb c 13))
unfolding is_space
is_space_lem c = ground arith

pub skip_white-append :
    (sp rest : List ℕ)
    → AreSpaces sp
    → is_space (get_or rest 0 0) ≡ false
    → skip_white (sp ++ rest) ≡ rest
unfolding skip_white
skip_white-append [] [] all stop = refl
skip_white-append [] (c ∷ cs) all stop = rw stop
skip_white-append (s ∷ sp) rest all stop =
    rw (is_space_lem s ∙ all.0) (skip_white-append sp rest all.1 stop)

abbrev pub is_minus : Sign → Bool
is_minus unsigned = false
is_minus plus = false
is_minus minus = true

pub sign-text :
    (s : Sign) (p : List ℕ) → 48 ≤ get_or p 0 0 → sign (sign_text s ++ p) ≡ (is_minus s, p)
unfolding sign
sign-text unsigned p le = ground (arith, le)
sign-text plus p le = refl
sign-text minus p le = refl

-- the marker of a hexadecimal number, as `radix` tests for it
abbrev is_marked : List ℕ → Bool
is_marked p =
    (get_or p 0 0 == b'0')
    && ((get_or p 1 0 == b'x') || (get_or p 1 0 == b'X'))
    && has_value (digit_value (get_or p 2 0) 16)

has_value_lem : (c : ℕ) → has_value (digit_value c 16) ≡ ltb (worth c) 16
has_value_lem c = ap has_value (digit_value-worth c 16 (omega arith)) ∙ known (worth c)
  where
    known : (w : ℕ) → has_value (if ltb w 16 then some w else none) ≡ ltb w 16
    known w = ground arith

is_marked_lem :
    (b : ℕ) (d : Digit) (ds : List Digit) (rest : List ℕ)
    → b ≤ 16
    → AreDigits b (d ∷ ds)
    → is_marked (numerals (d ∷ ds) ++ rest) ≡ opens_hex d ds rest
is_marked_lem b d [] rest le all = ground (arith, has_value_lem (get_or rest 1 0), le, all.0)
is_marked_lem b d (c ∷ ds) rest le all = ground (arith, le, all.1.0)

given_lem : (b : ℕ) (p : List ℕ) → 0 < b → (b == 16) && is_marked p ≡ false → radix b p ≡ (b, p)
unfolding radix
given_lem b p lt ne = ground (arith, lt, ne)

hexadecimal_lem :
    (b c d : ℕ) (p : List ℕ)
    → (b == 0) || (b == 16) ≡ true
    → (c == b'x') || (c == b'X') ≡ true
    → has_value (digit_value d 16) ≡ true
    → radix b (b'0' ∷ c ∷ d ∷ p) ≡ (16, d ∷ p)
unfolding radix
hexadecimal_lem b c d p e e' e'' = rw (e, e', e'')

octal_lem : (p : List ℕ) → get_or p 0 0 ≡ b'0' → is_marked p ≡ false → radix 0 p ≡ (8, p)
unfolding radix
octal_lem p e ne = ground (arith, e, ne)

decimal_lem : (c : ℕ) (p : List ℕ) → (c == b'0') ≡ false → radix 0 (c ∷ p) ≡ (10, c ∷ p)
unfolding radix
decimal_lem c p e = rw e

-- a base that is given: without the marker of 16, there too
given-is_marked :
    (b : ℕ) (d : Digit) (ds : List Digit) (rest : List ℕ)
    → (b == 16) && opens_hex d ds rest ≡ false
    → AreDigits b (d ∷ ds)
    → (b == 16) && is_marked (numerals (d ∷ ds) ++ rest) ≡ false
given-is_marked b d ds rest bare all = elim (Bool-cases (b == 16)) [
  | inl e ↦
      let le : b ≤ 16 = ground (arith, e) in
      ap (λ (m : Bool). (b == 16) && m) (is_marked_lem b d ds rest le all) ∙ bare
  | inr e ↦ rw e refl
]

pub radix-marker :
    (n : Notation) (d : Digit) (ds : List Digit) (rest : List ℕ)
    → IsNotation n d ds rest
    → AreDigits (radix_of n) (d ∷ ds)
    → radix (base_argument n) (marker n ++ (numerals (d ∷ ds) ++ rest))
      ≡ (radix_of n, numerals (d ∷ ds) ++ rest)
unfolding radix
radix-marker (given b) d ds rest is all =
    given_lem b (numerals (d ∷ ds) ++ rest) is.0 (given-is_marked b d ds rest is.2 all)
radix-marker (hexadecimal b capital) d ds rest is all =
    hexadecimal_lem b (if capital then b'X' else b'x') (numeral d) (numerals ds ++ rest) is
      (letter capital) (ap has_value (digit_value-numeral 16 d (omega arith) all.0))
  where
    letter :
        (capital : Bool)
        → ((if capital then b'X' else b'x') == b'x') || ((if capital then b'X' else b'x') == b'X')
          ≡ true
    letter true = refl
    letter false = refl
radix-marker octal d ds rest is all =
    octal_lem (numerals (d ∷ ds) ++ rest) (zero_digit d is.0)
      (is_marked_lem 8 d ds rest (omega arith) all ∙ is.1)
  where
    zero_digit : (d : Digit) → d.value ≡ 0 → numeral d ≡ b'0'
    zero_digit d e = ground (arith, e)
radix-marker decimal d ds rest is all =
    decimal_lem (numeral d) (numerals ds ++ rest) (not_zero d is)
  where
    not_zero : (d : Digit) → d.value ≢ 0 → (numeral d == b'0') ≡ false
    not_zero d ne = ground (arith, ne)

pub first_lem :
    (n : Notation) (d : Digit) (rest : List ℕ) → 48 ≤ get_or (marker n ++ (numeral d ∷ rest)) 0 0
first_lem (given b) d rest = ground arith
first_lem (hexadecimal b capital) d rest = omega arith
first_lem octal d rest = ground arith
first_lem decimal d rest = ground arith

pub no_space :
    (s : Sign) (p : List ℕ) → 48 ≤ get_or p 0 0 → is_space (get_or (sign_text s ++ p) 0 0) ≡ false
unfolding is_space
no_space unsigned p le = ground (arith, le)
no_space plus p le = refl
no_space minus p le = refl

pub base_lem :
    (n : Notation) (d : Digit) (ds : List Digit) (rest : List ℕ)
    → IsNotation n d ds rest
    → radix_of n ≤ 36
base_lem (given b) d ds rest is = is.1
base_lem (hexadecimal b capital) d ds rest is = omega arith
base_lem octal d ds rest is = omega arith
base_lem decimal d ds rest is = omega arith

pub assembled :
    (s p q r : List ℕ) (base b v : ℕ) (neg any : Bool)
    → sign (skip_white s) ≡ (neg, p)
    → radix base p ≡ (b, q)
    → digits_loop b 0 false q ≡ (v, any, r)
    → strtoull s base ≡ (if neg then (2 ^ 64 - v) % 2 ^ 64 else v, if any then r else s)
unfolding strtoull
assembled s p q r base b v neg any e e' e'' = rw (e, e', e'')
