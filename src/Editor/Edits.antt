-- ===== src/Editor/Edits.antt =====
-- The two edits of the text, and how the second undoes the first.
use lunaria_os.Base.{
  ℕ, zero, suc, ◌+◌, ◌-◌, ◌≤◌, ◌<◌, ◌≡◌, ap, true, Bytes, write, each_lem, copy_lem, in_range, ltb,
  ◌==◌, if◌then◌else◌, arith, Bool-cases, inl, inr,
}
use lunaria_os.Editor.{Editor, do_insert, do_backspace, shift_up}

shift_up_lem :
    (n k p : ℕ) (buf : Bytes) (j : ℕ)
    → shift_up n k p buf j ≡ (if in_range (p + n) (p + n + k) j then buf (j - n) else buf j)
unfolding shift_up
shift_up_lem n zero p buf j = ground arith
shift_up_lem n (suc k) p buf j =
    ground (arith, shift_up_lem n k p (write buf (p + k + n) (buf (p + k))) j, last j)
  where
    last :
        (j : ℕ)
        → (if j == p + k + n then buf (j - n) else 0) ≡ (if j == p + k + n then buf (p + k) else 0)
    last j = elim (Bool-cases (j == p + k + n)) [
      | inl e ↦ ground (arith, e, ap buf (at e))
      | inr e ↦ ground (arith, e)
    ]
      where
        at : (j == p + k + n) ≡ true → j - n ≡ p + k
        at e = ground (arith, e)

-- `n` bytes `c` come in at the cursor, and the cursor behind them; what stood behind it moves up.
pub record IsInserted (e : Editor) (c n : ℕ) (e' : Editor) : Type 0 where
  pub len : e'.len ≡ e.len + n
  pub pos : e'.pos ≡ e.pos + n
  pub dirty : e'.dirty ≡ true
  pub text :
      (j : ℕ)
      → j < e.len + n
      → e'.buf j ≡ (if ltb j e.pos then e.buf j else if ltb j (e.pos + n) then c else e.buf (j - n))

pub do_insert-IsInserted :
    (e : Editor) (c n : ℕ) → e.pos ≤ e.len → e.len + n < 65536 → IsInserted e c n (do_insert e c n)
unfolding do_insert
do_insert-IsInserted e c n le room = record {
  len = ground arith;
  pos = ground arith;
  dirty = ground arith;
  text = λ j lt. ground (
    arith,
    lt,
    each_lem (λ i old. c) n e.pos (shift_up n (e.len - e.pos) e.pos e.buf) j,
    shift_up_lem n (e.len - e.pos) e.pos e.buf j,
  );
}

-- The byte before the cursor goes, and what stands behind it moves down.
pub record IsErased (e e' : Editor) : Type 0 where
  pub dirty : e'.dirty ≡ true
  pub len : e'.len ≡ e.len - 1
  pub pos : e'.pos ≡ e.pos - 1
  pub text :
      (j : ℕ) → j < e.len - 1 → e'.buf j ≡ (if ltb j (e.pos - 1) then e.buf j else e.buf (j + 1))

pub do_backspace-IsErased : (e : Editor) → 0 < e.pos → e.pos ≤ e.len → IsErased e (do_backspace e)
unfolding do_backspace
do_backspace-IsErased e pos le = record {
  dirty = ground arith;
  len = ground arith;
  pos = ground arith;
  text = λ j lt. ground (
    arith,
    lt,
    copy_lem (e.len - e.pos) (e.pos - 1) e.pos e.buf j (inl (omega arith)),
    ap e.buf (next e.pos j pos),
  );
}
  where
    next : (p j : ℕ) → 0 < p → (if ltb j (p - 1) then j + 1 else p + (j - (p - 1))) ≡ j + 1
    next p j pos = ground arith

pub erase : ℕ → Editor → Editor
erase zero e = e
erase (suc n) e = erase n (do_backspace e)

-- the text, its length and the cursor
pub record SameText (e e' : Editor) : Type 0 where
  pub len : e'.len ≡ e.len
  pub pos : e'.pos ≡ e.pos
  pub text : (j : ℕ) → j < e.len → e'.buf j ≡ e.buf j

-- One byte less came in.
backspace-IsInserted :
    (e : Editor) (c n : ℕ) (e' e'' : Editor)
    → e.pos ≤ e.len
    → IsInserted e c (suc n) e'
    → IsErased e' e''
    → IsInserted e c n e''
backspace-IsInserted e c n e' e'' le i r = record {
  len = omega (arith, r.len, i.len);
  pos = omega (arith, r.pos, i.pos);
  dirty = r.dirty;
  text = λ j lt. ground (
    arith,
    lt,
    le,
    r.text j,
    r.len,
    r.pos,
    i.len,
    i.pos,
    i.text j,
    i.text (j + 1),
    ap e.buf (one_less j),
  );
}
  where
    one_less : (j : ℕ) → j + 1 - suc n ≡ j - n
    one_less j = omega arith

-- Bytes are taken back one by one.
erase-IsInserted :
    (e : Editor) (c n : ℕ) (e' : Editor)
    → e.pos ≤ e.len
    → IsInserted e c n e'
    → SameText e (erase n e')
unfolding erase
erase-IsInserted e c zero e' le i = record {
  len = omega (arith, i.len);
  pos = omega (arith, i.pos);
  text = λ j lt. ground (arith, lt, i.text j);
}
erase-IsInserted e c (suc n) e' le i = erase-IsInserted e c n (do_backspace e') le (
    backspace-IsInserted e c n e' (do_backspace e') le i
      (do_backspace-IsErased e' (omega (arith, i.pos)) (omega (arith, i.pos, i.len, le))))

-- Typing and taking back, with the cursor in the text and room for the bytes: after `n` bytes came in
-- at the cursor, `n` backspaces give the text, its length and the cursor of before.
pub erase-do_insert :
    (e : Editor) (c n : ℕ)
    → e.pos ≤ e.len
    → e.len + n < 65536
    → SameText e (erase n (do_insert e c n))
erase-do_insert e c n le room =
    erase-IsInserted e c n (do_insert e c n) le (do_insert-IsInserted e c n le room)
