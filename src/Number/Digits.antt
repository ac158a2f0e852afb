-- ===== src/Number/Digits.antt =====
-- The digits of a number and the loop of `strtoull` that reads them.
use mathlib.Core.Path.{ap₂}
use lunaria_os.Base.{
  ◌-◌, ℕ, suc, ◌+◌, ◌*◌, ◌/◌, ◌%◌, ◌^◌, ◌≤◌, ◌<◌, ◌≡◌, refl, sym, ap, ◌∙◌, Bool, true, false, ◌||◌,
  none, some, ltb, if◌then◌else◌, arith, List, [], ◌∷◌, ◌++◌, get_or,
}
use native.Mathlib.Omega.{pow_step}
use native.Mathlib.Nat.{pow-zero, mul-add-mod_self_right, div-add-mod'}
use lunaria_os.Number.{digit_value, digits_loop}

-- a digit: its value, and whether a letter is a capital
pub record Digit : Type 0 where
  pub value : ℕ
  pub capital : Bool

abbrev pub numeral : Digit → ℕ
numeral d =
    if ltb d.value 10 then d.value + b'0' else if d.capital then d.value + 55 else d.value + 87

abbrev pub numerals : List Digit → List ℕ
numerals [] = []
numerals (d ∷ ds) = numeral d ∷ numerals ds

abbrev pub count : List Digit → ℕ
count [] = 0
count (d ∷ ds) = suc (count ds)

abbrev pub has_digit : List Digit → Bool
has_digit [] = false
has_digit (d ∷ ds) = true

-- the number in positional notation
abbrev pub number : ℕ → List Digit → ℕ
number b [] = 0
number b (d ∷ ds) = d.value * b ^ count ds + number b ds

abbrev pub AreDigits : ℕ → List Digit → Type 0
AreDigits b [] = Unit
AreDigits b (d ∷ ds) = (d.value < b) × AreDigits b ds

pub digit_value-numeral :
    (b : ℕ) (d : Digit) → b ≤ 36 → d.value < b → digit_value (numeral d) b ≡ some d.value
unfolding digit_value
digit_value-numeral b d le lt = ground (arith, le, lt)

-- what a byte is worth as a digit, 36 if it is none
abbrev pub worth : ℕ → ℕ
worth c =
    if ltb c 48
    then 36
    else if ltb c 58
    then c - 48
    else if ltb c 65
    then 36
    else if ltb c 91
    then c - 55
    else if ltb c 97
    then 36
    else if ltb c 123
    then c - 87
    else 36

pub digit_value-worth :
    (c b : ℕ) → b ≤ 36 → digit_value c b ≡ (if ltb (worth c) b then some (worth c) else none)
unfolding digit_value
digit_value-worth c b le = ground (arith, le)

-- no digit of the base, as the zero at the end of a string
abbrev pub StopsAt : ℕ → List ℕ → Type 0
StopsAt b rest = b ≤ worth (get_or rest 0 0)

StopsAt_lem : (b c : ℕ) → b ≤ 36 → b ≤ worth c → digit_value c b ≡ none
StopsAt_lem b c le stop = digit_value-worth c b le ∙ no_digit (worth c) b stop
  where
    no_digit : (w b : ℕ) → b ≤ w → (if ltb w b then some w else none) ≡ none
    no_digit w b le = ground (arith, le)

reduced : (m q r p v : ℕ) → (r * p + v) % m ≡ ((q * m + r) * p + v) % m
reduced m q r p v =
    sym (mul-add-mod_self_right (q * p) m (r * p + v)) ∙ ap (λ (t : ℕ). t % m) (omega arith)

wrap_step :
    (m acc b d p v : ℕ) → ((acc * b + d) % m * p + v) % m ≡ (acc * (b * p) + (d * p + v)) % m
wrap_step m acc b d p v =
    reduced m ((acc * b + d) / m) ((acc * b + d) % m) p v
    ∙ ap (λ (t : ℕ). (t * p + v) % m) (div-add-mod' (acc * b + d) m)
    ∙ ap (λ (t : ℕ). t % m) (omega arith)

or_false : (any : Bool) → any ≡ (any || false)
or_false true = refl
or_false false = refl

or_true : (any : Bool) → true ≡ (any || true)
or_true true = refl
or_true false = refl

nothing : (b acc : ℕ) → acc < 2 ^ 64 → acc ≡ (acc * b ^ 0 + 0) % 2 ^ 64
nothing b acc lt = one acc lt ∙ ap (λ (t : ℕ). (acc * t + 0) % 2 ^ 64) (sym power)
  where
    one : (x : ℕ) → x < 2 ^ 64 → x ≡ (x * 1 + 0) % 2 ^ 64
    one x h = omega (arith, h)

    power : b ^ 0 ≡ 1
    power = pow-zero b

stopped :
    (b acc : ℕ) (any : Bool) (rest : List ℕ)
    → acc < 2 ^ 64
    → ◌≡◌ {A = ℕ × Bool × List ℕ} (acc, any, rest) ((acc * b ^ 0 + 0) % 2 ^ 64, any || false, rest)
stopped b acc any rest lt =
    ap₂ (λ (x : ℕ) (y : Bool). (x, y, rest)) (nothing b acc lt) (or_false any)

digits_loop-none :
    (b acc : ℕ) (any : Bool) (c : ℕ) (cs : List ℕ)
    → digit_value c b ≡ none
    → digits_loop b acc any (c ∷ cs) ≡ (acc, any, c ∷ cs)
unfolding digits_loop
digits_loop-none b acc any c cs e = rw (e, digits_loop)

digits_loop-some :
    (b acc : ℕ) (any : Bool) (c d : ℕ) (cs : List ℕ)
    → digit_value c b ≡ some d
    → digits_loop b acc any (c ∷ cs) ≡ digits_loop b ((acc * b + d) % 2 ^ 64) true cs
unfolding digits_loop
digits_loop-some b acc any c d cs e = rw (e, digits_loop)

pub digits_loop-numerals :
    (b acc : ℕ) (any : Bool) (ds : List Digit) (rest : List ℕ)
    → b ≤ 36
    → acc < 2 ^ 64
    → AreDigits b ds
    → StopsAt b rest
    → digits_loop b acc any (numerals ds ++ rest)
      ≡ ((acc * b ^ count ds + number b ds) % 2 ^ 64, any || has_digit ds, rest)
unfolding digits_loop
digits_loop-numerals b acc any [] [] le lt all ends = stopped b acc any [] lt
digits_loop-numerals b acc any [] (c ∷ cs) le lt all ends =
    digits_loop-none b acc any c cs (StopsAt_lem b c le ends) ∙ stopped b acc any (c ∷ cs) lt
digits_loop-numerals b acc any (d ∷ ds) rest le lt all ends =
    digits_loop-some b acc any (numeral d) d.value (numerals ds ++ rest)
      (digit_value-numeral b d le all.0)
    ∙ digits_loop-numerals b ((acc * b + d.value) % 2 ^ 64) true ds rest le (omega arith) all.1 ends
    ∙ ap₂ (λ (x : ℕ) (y : Bool). (x, y, rest))
        (wrap_step (2 ^ 64) acc b d.value (b ^ count ds) (number b ds)
          ∙ ap (λ (t : ℕ). (acc * t + (d.value * b ^ count ds + number b ds)) % 2 ^ 64)
              (power b (count ds)))
        (or_true any)
  where
    power : (b n : ℕ) → b * b ^ n ≡ b ^ suc n
    power b n = sym (pow_step b n)
