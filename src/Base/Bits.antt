-- ===== src/Base/Bits.antt =====
-- `&`, `|` with masks and fields of C words, as arithmetic.
use Prim.Native.Nat.{max, digits, bit_and-bitwise, bit_or-bitwise}
use native.Mathlib.Nat.{pow-suc, pow-succ', one-le-pow, div-add-mod', div-div-eq-div-mul}
use lunaria_os.Base.{
  sym, ◌∙◌, ℕ, zero, suc, ◌+◌, ◌-◌, ◌*◌, ◌/◌, ◌%◌, ◌^◌, ◌≤◌, ◌<◌, ◌≡◌, refl, ap, min, bit_and,
  bit_or, arith,
}

-- the digits of an operation on bits with two amounts of fuel that both suffice
same_digits :
    (z : ℕ → ℕ) (f : ℕ → ℕ → ℕ) (p q x y : ℕ) → x ≤ p → x ≤ q → digits z f p x y ≡ digits z f q x y
same_digits z f zero zero x y hp hq = refl
same_digits z f zero (suc q) zero y hp hq = refl
same_digits z f (suc p) zero zero y hp hq = refl
same_digits z f (suc p) (suc q) zero y hp hq = refl
same_digits z f zero q (suc x) y hp hq = absurd (omega arith)
same_digits z f (suc p) zero (suc x) y hp hq = absurd (omega arith)
same_digits z f (suc p) (suc q) (suc x) y hp hq =
    omega (arith, same_digits z f p q (suc x / 2) (y / 2) (omega arith) (omega arith))

-- One digit of `|` and of `&`.
pub or_digit : (x y : ℕ) → bit_or x y ≡ bit_or (x / 2) (y / 2) * 2 + max (x % 2) (y % 2)
or_digit zero y = omega (arith, bit_or-bitwise 0 y, bit_or-bitwise 0 (y / 2))
or_digit (suc x) y = omega (
  arith,
  bit_or-bitwise (suc x) y,
  bit_or-bitwise (suc x / 2) (y / 2),
  same_digits (λ b. b) max x (suc x / 2) (suc x / 2) (y / 2) (omega arith) (omega arith),
)

pub and_digit : (x y : ℕ) → bit_and x y ≡ bit_and (x / 2) (y / 2) * 2 + min (x % 2) (y % 2)
and_digit zero y = omega (arith, bit_and-bitwise 0 y, bit_and-bitwise 0 (y / 2))
and_digit (suc x) y = omega (
  arith,
  bit_and-bitwise (suc x) y,
  bit_and-bitwise (suc x / 2) (y / 2),
  same_digits (λ b. 0) min x (suc x / 2) (suc x / 2) (y / 2) (omega arith) (omega arith),
)

and-zero_upto : (n x : ℕ) → x ≤ n → bit_and x 0 ≡ 0
and-zero_upto zero x h = omega (arith, ap (λ (t : ℕ). bit_and t 0) (zero_of x h))
  where
    zero_of : (x : ℕ) → x ≤ 0 → x ≡ 0
    zero_of x h = omega arith
and-zero_upto (suc n) x h = omega (arith, and_digit x 0, and-zero_upto n (x / 2) (omega arith))

or-zero_upto : (n x : ℕ) → x ≤ n → bit_or x 0 ≡ x
or-zero_upto zero x h = omega (arith, or_digit x 0, ap (λ (t : ℕ). bit_or t 0) (zero_of x h))
  where
    zero_of : (x : ℕ) → x ≤ 0 → x / 2 ≡ 0
    zero_of x h = omega arith
or-zero_upto (suc n) x h = omega (arith, or_digit x 0, or-zero_upto n (x / 2) (omega arith))

pub and-zero : (x : ℕ) → bit_and x 0 ≡ 0
and-zero x = and-zero_upto x x (omega arith)

pub or-zero : (x : ℕ) → bit_or x 0 ≡ x
or-zero x = or-zero_upto x x (omega arith)

double_pow : (q k : ℕ) → q * 2 ^ suc k ≡ 2 * (q * 2 ^ k)
double_pow q k = omega (arith, ap (λ (t : ℕ). q * t) (pow-suc 2 k))

div_double : (k x : ℕ) → x / 2 ^ suc k ≡ x / 2 / 2 ^ k
div_double k x = ap (λ (t : ℕ). x / t) (pow-succ' 2 k) ∙ sym (div-div-eq-div-mul x 2 (2 ^ k))

mod_double : (k x : ℕ) → x % 2 ^ suc k ≡ x / 2 % 2 ^ k * 2 + x % 2
mod_double k x = ground (
  arith,
  div-add-mod' x (2 ^ suc k),
  div-add-mod' (x / 2) (2 ^ k),
  div_double k x,
  double_pow (x / 2 / 2 ^ k) k,
)

-- a mask of low ones
pub and_ones : (k x : ℕ) → bit_and x (2 ^ k - 1) ≡ x % 2 ^ k
and_ones zero x = omega (arith, and-zero x)
and_ones (suc k) x = ground (
  arith,
  one-le-pow k 2,
  pow-suc 2 k,
  and_digit x (2 ^ suc k - 1),
  and_ones k (x / 2),
  mod_double k x,
)

-- a mask with zeros at the low end
pub and_high : (k m x : ℕ) → bit_and x (m * 2 ^ k) ≡ bit_and (x / 2 ^ k) m * 2 ^ k
and_high zero m x = ground arith
and_high (suc k) m x = ground (
  arith,
  double_pow m k,
  double_pow (bit_and (x / 2 ^ suc k) m) k,
  and_digit x (m * 2 ^ suc k),
  and_high k m (x / 2),
  div_double k x,
)

-- disjoint fields
pub or_fields : (k q r : ℕ) → r < 2 ^ k → bit_or (q * 2 ^ k) r ≡ q * 2 ^ k + r
or_fields zero q r h = ground (arith, or-zero q)
or_fields (suc k) q r h =
    ground (arith, pow-suc 2 k, double_pow q k, or_digit (q * 2 ^ suc k) r, or_fields k q (r / 2))
