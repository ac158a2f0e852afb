-- ===== src/Editor/Lines.antt =====
-- Where lines begin and end, and how many there are.
use lunaria_os.Base.{
  ℕ, zero, suc, ◌+◌, ◌-◌, ◌≤◌, ◌<◌, ◌≡◌, ◌≢◌, refl, ap, true, ◌||◌, Bytes, ◌==◌, if◌then◌else◌,
  arith, Bool-cases, inl, inr,
}
use lunaria_os.Editor.{
  Editor, line_begin, line_end, line_end_in, count_lines, walk, pos_for_col, width,
}

pub line_begin-le : (buf : Bytes) (p : ℕ) → line_begin buf p ≤ p
unfolding line_begin
line_begin-le buf zero = omega arith
line_begin-le buf (suc p) = ground (arith, line_begin-le buf p)

-- A line begins at the start of the text or behind a newline,
pub line_begin-newline :
    (buf : Bytes) (p : ℕ) → (line_begin buf p == 0 || (buf (line_begin buf p - 1) == 10)) ≡ true
unfolding line_begin
line_begin-newline buf zero = refl
line_begin-newline buf (suc p) = ground (arith, line_begin-newline buf p, ap buf (back p))
  where
    back : (p : ℕ) → suc p - 1 ≡ p
    back p = omega arith

-- and has no newline before the byte whose line it is.
pub line_begin-no_newline : (buf : Bytes) (p j : ℕ) → line_begin buf p ≤ j → j < p → buf j ≢ 10
unfolding line_begin
line_begin-no_newline buf zero j le lt = ground arith
line_begin-no_newline buf (suc p) j le lt = elim (Bool-cases (j == p)) [
  | inl e ↦ ground (arith, e, le, ap buf (same e))
  | inr e ↦ ground (arith, e, le, lt, line_begin-no_newline buf p j)
]
  where
    same : (j == p) ≡ true → j ≡ p
    same e = ground (arith, e)

pub line_end_in-le :
    (n : ℕ) (buf : Bytes) (p : ℕ) → (p ≤ line_end_in n buf p) × (line_end_in n buf p ≤ p + n)
unfolding line_end_in
line_end_in-le zero buf p = ground arith
line_end_in-le (suc n) buf p = ground (arith, line_end_in-le n buf (p + 1))

-- A line ends at or behind each of its bytes, and not behind the text.
pub line_end_bounds : (e : Editor) (p : ℕ) → p ≤ e.len → (p ≤ line_end e p) × (line_end e p ≤ e.len)
line_end_bounds e p le = omega (arith, line_end_in-le (e.len - p) e.buf p)

-- a stretch without a newline adds no line
pub count_lines-none :
    (k : ℕ) (buf : Bytes) (i n : ℕ)
    → ((j : ℕ) → i ≤ j → j < i + k → buf j ≢ 10)
    → count_lines k buf i n ≡ n
unfolding count_lines
count_lines-none zero buf i n h = refl
count_lines-none (suc k) buf i n h = ground (
  arith,
  h i,
  count_lines-none k buf (i + 1) n (λ j le lt. h j (omega (arith, le)) (omega (arith, lt))),
)

pub count_lines_split :
    (k l m : ℕ) (buf : Bytes) (i j n : ℕ)
    → k + l ≡ m
    → i + k ≡ j
    → count_lines m buf i n ≡ count_lines l buf j (count_lines k buf i n)
unfolding count_lines
count_lines_split zero l m buf i j n e e' = ground (
  arith,
  ap (λ (t : ℕ). count_lines t buf i n) (rounds e),
  ap (λ (t : ℕ). count_lines l buf t n) (start e'),
)
  where
    rounds : 0 + l ≡ m → l ≡ m
    rounds e = omega (arith, e)

    start : i + 0 ≡ j → i ≡ j
    start e = omega (arith, e)
count_lines_split (suc k) l zero buf i j n e e' = absurd (omega (arith, e))
count_lines_split (suc k) l (suc m) buf i j n e e' =
    count_lines_split k l m buf (i + 1) j (if buf i == 10 then n + 1 else n) (omega (arith, e))
      (omega (arith, e'))

pub count_lines_from :
    (k : ℕ) (buf : Bytes) (i n : ℕ) → count_lines k buf i n ≡ n + count_lines k buf i 0
unfolding count_lines
count_lines_from zero buf i n = omega arith
count_lines_from (suc k) buf i n = ground (
  arith,
  count_lines_from k buf (i + 1) (n + 1),
  count_lines_from k buf (i + 1) n,
  count_lines_from k buf (i + 1) 1,
)

-- The line from `p` on has no newline before its end,
pub line_end_in-no_newline :
    (n : ℕ) (buf : Bytes) (p j : ℕ) → p ≤ j → j < line_end_in n buf p → buf j ≢ 10
unfolding line_end_in
line_end_in-no_newline zero buf p j le lt = ground arith
line_end_in-no_newline (suc n) buf p j le lt = elim (Bool-cases (j == p)) [
  | inl e ↦ ground (arith, e, lt, ap buf (same e))
  | inr e ↦ ground (arith, e, le, lt, line_end_in-no_newline n buf (p + 1) j)
]
  where
    same : (j == p) ≡ true → j ≡ p
    same e = ground (arith, e)

pub count_lines-le : (k : ℕ) (buf : Bytes) (i n : ℕ) → count_lines k buf i n ≤ n + k
unfolding count_lines
count_lines-le zero buf i n = omega arith
count_lines-le (suc k) buf i n =
    ground (arith, count_lines-le k buf (i + 1) n, count_lines-le k buf (i + 1) (n + 1))

-- `pos_for_col` stays in the line.
walk_bounds :
    (n : ℕ) (buf : Bytes) (target i c : ℕ)
    → (i ≤ (walk n buf target i c).0) × ((walk n buf target i c).0 ≤ i + n)
unfolding walk
walk_bounds zero buf target i c = ground arith
walk_bounds (suc n) buf target i c =
    ground (arith, walk_bounds n buf target (i + 1) (c + width c (buf i)))

pub pos_for_col_bounds :
    (e : Editor) (start target : ℕ)
    → start ≤ e.len
    → (start ≤ pos_for_col e start target) × (pos_for_col e start target ≤ line_end e start)
unfolding pos_for_col
pos_for_col_bounds e start target le =
    ground (
      arith,
      line_end_bounds e start le,
      walk_bounds (line_end e start - start) e.buf target start 0,
    )
