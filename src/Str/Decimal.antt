-- ===== src/Str/Decimal.antt =====
-- `atoi` reads back what `itoa` prints.
use mathlib.Core.Path.{subst}
use native.Mathlib.Nat.{pow-suc, pow-succ', div-div-eq-div-mul}
use lunaria_os.Base.{
  ℕ, zero, suc, ◌+◌, ◌-◌, ◌*◌, ◌/◌, ◌%◌, ◌^◌, ◌≤◌, ◌<◌, ◌≡◌, refl, ap, sym, ◌∙◌, ◌||◌, some, Bytes,
  write, in_range, ◌==◌, if◌then◌else◌, arith, inl, inr, Bool-cases,
}
use lunaria_os.Base.Int.{pos}
use lunaria_os.Str.{put_digits, swap_loop, finish, signed, itoa, atoi_from, atoi}

div_first : (k m : ℕ) → m / 10 ^ suc k ≡ m / 10 / 10 ^ k
div_first k m = ap (λ (t : ℕ). m / t) (pow-succ' 10 k) ∙ sym (div-div-eq-div-mul m 10 (10 ^ k))

div_last : (k m : ℕ) → m / 10 ^ suc k ≡ m / 10 ^ k / 10
div_last k m = ap (λ (t : ℕ). m / t) (pow-suc 10 k) ∙ sym (div-div-eq-div-mul m (10 ^ k) 10)

le_self : (k m : ℕ) → m / 10 ^ k ≤ m
le_self zero m = omega arith
le_self (suc k) m = omega (arith, div_last k m, le_self k m)

-- The digits of `m` stand in the buffer from place `i` on, the lowest first.
record IsDigits (m i f : ℕ) (buf : Bytes) (r : Bytes × ℕ) : Type 0 where
  width : ℕ
  at_end : r.1 ≡ i + width
  room : width ≤ f
  all : m / 10 ^ width ≡ 0
  digit : (k : ℕ) → k < width → r.0 (i + k) ≡ 48 + m / 10 ^ k % 10
  before : (j : ℕ) → j < i → r.0 j ≡ buf j

-- The last digit, and one before it.
last_digit :
    (f m i : ℕ) (buf : Bytes)
    → m / 10 ≡ 0
    → IsDigits m i (suc f) buf (write buf i (48 + m % 10), i + 1)
last_digit f m i buf e = record {
  width = 1;
  at_end = refl;
  room = omega arith;
  all = ground (arith, e);
  digit = λ k lt. first_of k lt;
  before = λ j lt. ground (arith, lt);
}
  where
    first_of : (k : ℕ) → k < 1 → write buf i (48 + m % 10) (i + k) ≡ 48 + m / 10 ^ k % 10
    first_of zero lt = ground arith
    first_of (suc k) lt = absurd (omega (arith, lt))

more-IsDigits :
    (f m i : ℕ) (buf : Bytes) (r : Bytes × ℕ)
    → IsDigits (m / 10) (i + 1) f (write buf i (48 + m % 10)) r
    → IsDigits m i (suc f) buf r
more-IsDigits f m i buf r h = record {
  width = suc h.width;
  at_end = omega (arith, h.at_end);
  room = omega (arith, h.room);
  all = div_first h.width m ∙ h.all;
  digit = digit_of;
  before = λ j lt. ground (arith, lt, h.before j (omega (arith, lt)));
}
  where
    digit_of : (k : ℕ) → k < suc h.width → r.0 (i + k) ≡ 48 + m / 10 ^ k % 10
    digit_of zero lt = ground (arith, h.before i (omega arith), ap r.0 (start i))
      where
        start : (i : ℕ) → i + 0 ≡ i
        start i = omega arith
    digit_of (suc k) lt =
        ground (arith, h.digit k (omega (arith, lt)), div_first k m, ap r.0 (next i k))
      where
        next : (i k : ℕ) → i + suc k ≡ i + 1 + k
        next i k = omega arith

put_digits-IsDigits :
    (f m i : ℕ) (buf : Bytes) → m / 10 ^ f ≡ 0 → IsDigits m i f buf (put_digits f m i buf)
unfolding put_digits
put_digits-IsDigits zero m i buf h = record {
  width = 0;
  at_end = omega arith;
  room = omega arith;
  all = h;
  digit = λ k lt. absurd (omega (arith, lt));
  before = λ j lt. refl;
}
put_digits-IsDigits (suc f) m i buf h = elim (Bool-cases (m / 10 == 0)) [
  | inl e ↦
      subst (IsDigits m i (suc f) buf) (ground (arith, e))
        (last_digit f m i buf (ground (arith, e)))
  | inr e ↦ subst (IsDigits m i (suc f) buf) (ground (arith, e)) (
      more-IsDigits f m i buf _ (
        put_digits-IsDigits f (m / 10) (i + 1) (write buf i (48 + m % 10))
          (sym (div_first f m) ∙ h)))
]

-- One swap, at a place of the first `i` bytes.
swapped : Bytes → ℕ → ℕ → Bytes
swapped buf j i = write (write buf j (buf (i - 1 - j))) (i - 1 - j) (buf j)

swapped_lem :
    (buf : Bytes) (j i x : ℕ)
    → j < i / 2
    → x < i
    → swapped buf j i x ≡ (if (x == j) || (i - 1 - x == j) then buf (i - 1 - x) else buf x)
unfolding swapped
swapped_lem buf j i x h lt = ground (arith, h, lt, ap buf back)
  where
    back : i - 1 - x ≡ (if i - 1 - x == j then j else i - 1 - x)
    back = ground arith

turn :
    (n j i : ℕ) (buf : Bytes) (x : ℕ)
    → j + suc n ≤ i / 2
    → x < i
    → (if in_range (j + 1) (j + 1 + n) x || in_range (j + 1) (j + 1 + n) (i - 1 - x)
        then swapped buf j i (i - 1 - x)
        else swapped buf j i x)
      ≡ (if in_range j (j + suc n) x || in_range j (j + suc n) (i - 1 - x)
          then buf (i - 1 - x)
          else buf x)
turn n j i buf x h lt = ground (
  arith,
  h,
  lt,
  swapped_lem buf j i x (omega (arith, h)) lt,
  swapped_lem buf j i (i - 1 - x) (omega (arith, h)) (omega (arith, lt)),
)

-- The swaps turn the first `i` bytes round.
swap_loop_lem :
    (n j i : ℕ) (buf : Bytes) (x : ℕ)
    → j + n ≤ i / 2
    → x < i
    → swap_loop n j i buf x
      ≡ (if in_range j (j + n) x || in_range j (j + n) (i - 1 - x) then buf (i - 1 - x) else buf x)
unfolding swap_loop swapped
swap_loop_lem zero j i buf x h lt = ground arith
swap_loop_lem (suc n) j i buf x h lt =
    swap_loop_lem n (j + 1) i (swapped buf j i) x (omega (arith, h)) lt ∙ turn n j i buf x h lt

swap_loop_end :
    (n j i : ℕ) (buf : Bytes) (x : ℕ) → j + n ≤ i / 2 → i ≤ x → swap_loop n j i buf x ≡ buf x
unfolding swap_loop
swap_loop_end zero j i buf x h le = refl
swap_loop_end (suc n) j i buf x h le =
    swap_loop_end n (j + 1) i (write (write buf j (buf (i - 1 - j))) (i - 1 - j) (buf j)) x
      (omega (arith, h)) le
    ∙ ground (arith, h, le)

finish_lem : (buf : Bytes) (i x : ℕ) → x < i → finish (buf, i) x ≡ buf (i - 1 - x)
unfolding finish
finish_lem buf i x h =
    ground (arith, h, swap_loop_lem (i / 2) 0 i (write buf i 0) x (omega arith) h, ap buf middle)
  where
    middle : x ≡ (if x + x + 1 == i then i - 1 - x else x)
    middle = ground arith

-- The string that `itoa` leaves: its length, its bytes and its end.
finish_byte : (r : Bytes × ℕ) (x : ℕ) → x < r.1 → finish r x ≡ r.0 (r.1 - 1 - x)
finish_byte (buf, i) x h = finish_lem buf i x h

finish_end : (r : Bytes × ℕ) (w : ℕ) → r.1 ≡ w → finish r w ≡ 0
unfolding finish
finish_end (buf, i) w e =
    swap_loop_end (i / 2) 0 i (write buf i 0) w (omega arith) (omega (arith, e)) ∙ ground (arith, e)

atoi_from_lem :
    (f : ℕ) (s : Bytes) (m w i k : ℕ)
    → i + k ≡ w
    → k < f
    → m < 2 ^ 31
    → ((x : ℕ) → x < w → s x ≡ 48 + m / 10 ^ (w - 1 - x) % 10)
    → s w ≡ 0
    → atoi_from f s i (m / 10 ^ k) ≡ some m
unfolding atoi_from
atoi_from_lem zero s m w i k e lt small digit stop = absurd (omega (arith, lt))
atoi_from_lem (suc f) s m w i zero e lt small digit stop = ground (arith, stop, ap s (end i))
  where
    end : (i : ℕ) → i ≡ (if i == w then w else i)
    end i = ground arith
atoi_from_lem (suc f) s m w i (suc k) e lt small digit stop = ground (
  arith,
  digit i (omega (arith, e)),
  ap (λ (t : ℕ). m / 10 ^ t % 10) (place i k e),
  div_last k m,
  le_self k m,
  small,
  atoi_from_lem f s m w (i + 1) k (omega (arith, e)) (omega (arith, lt)) small digit stop,
  ap (atoi_from f s (i + 1)) (joined m k small),
)
  where
    place : (i k : ℕ) → i + suc k ≡ w → w - 1 - i ≡ k
    place i k e = omega (arith, e)

    joined : (m k : ℕ) → m < 2 ^ 31 → (m / 10 ^ suc k * 10 + m / 10 ^ k % 10) % 2 ^ 32 ≡ m / 10 ^ k
    joined m k small = omega (arith, div_last k m, le_self k m, small)

-- For a number below 2 ^ 31, `atoi` of the string that `itoa` leaves in any buffer ends after at most
-- eleven rounds with that number.
pub atoi-itoa : (n : ℕ) (buf : Bytes) → n < 2 ^ 31 → atoi 11 (itoa (pos n) buf) ≡ some n
unfolding itoa atoi signed
atoi-itoa n buf h =
    let m = n % 2 ^ 32 in
    let r = put_digits 10 m 0 buf in
    let d = put_digits-IsDigits 10 m 0 buf (omega arith) in
    let byte : (x : ℕ) → x < d.width → finish r x ≡ 48 + m / 10 ^ (d.width - 1 - x) % 10 = λ x lt.
      finish_byte r x (omega (arith, d.at_end, lt))
      ∙ ap r.0 (omega (arith, d.at_end))
      ∙ d.digit (d.width - 1 - x) (omega (arith, lt)) in
    let same : m ≡ n = omega (arith, h) in
    ap (atoi_from 11 (finish r) 0) (sym d.all)
    ∙ atoi_from_lem 11 (finish r) m d.width 0 d.width (omega arith) (omega (arith, d.room))
        (omega (arith, h)) byte (finish_end r d.width (omega (arith, d.at_end)))
    ∙ ap some same
