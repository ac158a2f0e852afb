-- ===== src/Number.antt =====
-- Reading numbers in the C library of the programs, src/home/lib/libc.c: `strtoull` and its kin. A string
-- is the list of its bytes before the zero, which reads as 0 past the end; `*end` is the part of it that is
-- left. An `unsigned long long` has 64 bits and wraps, its negation too.
pub mod Digits
pub mod Notation
pub mod Read
mod Tests
use lunaria_os.Base.{
  ℕ, zero, suc, ◌+◌, ◌-◌, ◌*◌, ◌/◌, ◌%◌, ◌^◌, ◌≤◌, ◌<◌, ◌≡◌, refl, sym, ap, ◌∙◌, ltb→lt, Bool, true,
  false, not, ◌&&◌, ◌||◌, Option, none, some, ltb, leb, ◌==◌, if◌then◌else◌, arith, Bool-cases, inl,
  inr, List, [], ◌∷◌, ◌++◌, ◌≢◌, get_or, length, drop,
}
use lunaria_os.Base.Int.{ℤ, pos, negsuc}

abbrev pub digit_below : ℕ → ℕ → Option ℕ
digit_below v base = if ltb v base then some v else none

-- `none` is -1.
unfoldable pub digit_value : ℕ → ℕ → Option ℕ
digit_value c base =
    if leb b'0' c && leb c b'9'
    then digit_below (c - b'0') base
    else if leb b'a' c && leb c b'z'
    then digit_below (c - b'a' + 10) base
    else if leb b'A' c && leb c b'Z'
    then digit_below (c - b'A' + 10) base
    else none

unfoldable pub is_space : ℕ → Bool
is_space c = (c == 32) || (c == 9) || (c == 10) || (c == 13) || (c == 12) || (c == 11)

unfoldable pub skip_white : List ℕ → List ℕ
skip_white [] = []
skip_white (c ∷ cs) = if is_space c then skip_white cs else c ∷ cs

-- whether a minus stands there, and what follows the sign
unfoldable pub sign : List ℕ → Bool × List ℕ
sign p =
    if (get_or p 0 0 == b'+') || (get_or p 0 0 == b'-')
    then (get_or p 0 0 == b'-', drop 1 p)
    else (false, p)

abbrev pub has_value : Option ℕ → Bool
has_value none = false
has_value (some d) = true

-- the base that the text has, and what follows the marker
unfoldable pub radix : ℕ → List ℕ → ℕ × List ℕ
radix base p =
    if ((base == 0) || (base == 16))
      && (get_or p 0 0 == b'0')
      && ((get_or p 1 0 == b'x') || (get_or p 1 0 == b'X'))
      && has_value (digit_value (get_or p 2 0) 16)
    then (16, drop 2 p)
    else if (base == 0) && (get_or p 0 0 == b'0')
    then (8, p)
    else if base == 0
    then (10, p)
    else (base, p)

-- `acc`, `any` and `p` behind the loop over the digits
unfoldable pub digits_loop : ℕ → ℕ → Bool → List ℕ → ℕ × Bool × List ℕ
digits_loop base acc any [] = (acc, any, [])
digits_loop base acc any (c ∷ cs) = elim (digit_value c base) [
  | none ↦ (acc, any, c ∷ cs)
  | some d ↦ digits_loop base ((acc * base + d) % 2 ^ 64) true cs
]

-- the number and `*end`
unfoldable pub strtoull : List ℕ → ℕ → ℕ × List ℕ
strtoull s base =
    let (neg, p) = sign (skip_white s) in
    let (b, q) = radix base p in
    let (acc, any, r) = digits_loop b 0 false q in
    (if neg then (2 ^ 64 - acc) % 2 ^ 64 else acc, if any then r else s)

-- a word of `w` bits as a as_signed number
abbrev pub as_signed : ℕ → ℕ → ℤ
as_signed w x =
    if ltb (x % 2 ^ w) (2 ^ (w - 1)) then pos (x % 2 ^ w) else negsuc (2 ^ w - 1 - x % 2 ^ w)

unfoldable pub strtoll : List ℕ → ℕ → ℤ × List ℕ
strtoll s base = let (x, end) = strtoull s base in (as_signed 64 x, end)

unfoldable pub strtoul : List ℕ → ℕ → ℕ × List ℕ
strtoul s base = let (x, end) = strtoull s base in (x % 2 ^ 32, end)

unfoldable pub strtol : List ℕ → ℕ → ℤ × List ℕ
strtol s base = let (x, end) = strtoull s base in (as_signed 32 x, end)
