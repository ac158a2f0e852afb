-- ===== src/Editor/View.antt =====
-- The view: `scroll_fix` ends, and the cursor is on the screen then.
use lunaria_os.Base.{
  ℕ, zero, suc, ◌+◌, ◌-◌, ◌≤◌, ◌<◌, ◌≡◌, refl, ◌∙◌, false, some, Bytes, ltb, leb, if◌then◌else◌,
  arith, Bool-cases, inl, inr,
}
use lunaria_os.Editor.{
  Editor, line_begin, line_end, count_lines, view_up, view_down, view_across, scroll_fix, last_line,
  cursor_row, cursor_column, col_of,
}
use lunaria_os.Editor.Lines.{
  line_begin-le, line_begin-no_newline, line_end_bounds, line_end_in-le, line_end_in-no_newline,
  count_lines-none, count_lines_split, count_lines_from, count_lines-le,
}

-- The first loop stops at or above the line of the cursor.
view_up_lem :
    (f : ℕ) (buf : Bytes) (lb top : ℕ)
    → top < f
    → (up : ℕ) × (view_up f buf lb top ≡ some up) × (up ≤ lb)
unfolding view_up
view_up_lem zero buf lb top lt = absurd (omega arith)
view_up_lem (suc f) buf lb top lt = elim (Bool-cases (ltb lb top)) [
  | inl e ↦
      let (up, eq, le) =
        view_up_lem f buf lb (if ltb 0 top then line_begin buf (top - 1) else 0)
          (ground (arith, e, line_begin-le buf (top - 1))) in
      (up, ground (arith, e, eq), le)
  | inr e ↦ (top, ground (arith, e), ground (arith, e))
]

last_line-le : (n : ℕ) (e : Editor) (p : ℕ) → p ≤ e.len + 1 → p ≤ last_line n e p
unfolding last_line
last_line-le zero e p le = omega arith
last_line-le (suc n) e p le = elim (Bool-cases (leb e.len (line_end e p))) [
  | inl at_end ↦ ground (arith, at_end)
  | inr before ↦
      ground
        (arith, before, last_line-le n e (line_end e p + 1), line_end_in-le (e.len - p) e.buf p)
]

-- A line below the `n + 1` lines from `top` on is below the first.
next_line :
    (n : ℕ) (e : Editor) (lb top : ℕ)
    → top ≤ lb
    → lb ≤ e.len
    → leb lb (last_line (suc n) e top) ≡ false
    → line_end e top + 1 ≤ lb
unfolding last_line
next_line n e lb top le inside hidden = elim (Bool-cases (leb e.len (line_end e top))) [
  | inl at_end ↦ ground (arith, at_end, hidden)
  | inr before ↦ ground (arith, before, hidden, last_line-le n e (line_end e top + 1))
]

-- The second loop stops at a line at or above the cursor's that has it among its 23.
view_down_lem :
    (f : ℕ) (e : Editor) (lb top : ℕ)
    → top ≤ lb
    → lb ≤ e.len
    → lb - top < f
    → (down : ℕ) × (view_down f e lb top ≡ some down) × (down ≤ lb) × (lb ≤ last_line 22 e down)
unfolding view_down
view_down_lem zero e lb top le inside lt = absurd (omega arith)
view_down_lem (suc f) e lb top le inside lt = elim (Bool-cases (leb lb (last_line 22 e top))) [
  | inl shown ↦ (top, ground (arith, shown), le, ground (arith, shown))
  | inr hidden ↦
      let next = next_line 21 e lb top le inside hidden in
      let (down, eq, le', shown) =
        view_down_lem f e lb (line_end e top + 1) next inside
          (omega (arith, lt, line_end_bounds e top (omega (arith, le, inside)))) in
      (down, ground (arith, hidden, eq), le', shown)
]

first_line-le :
    (e : Editor) (top stop : ℕ)
    → top ≤ stop
    → stop ≡ line_end e top
    → count_lines (stop + 1 - top) e.buf top 0 ≤ 1
first_line-le e top stop le eq = omega (
  arith,
  count_lines_split (stop - top) 1 (stop + 1 - top) e.buf top stop 0 (omega (arith, le))
      (omega (arith, le)),
  count_lines-none (stop - top) e.buf top 0 (λ j le' lt'.
      line_end_in-no_newline (e.len - top) e.buf top j le' (omega (arith, lt', eq, le))),
  count_lines-le 1 e.buf stop (count_lines (stop - top) e.buf top 0),
)

-- With a byte among the `n + 1` lines from `top` on, at most `n` newlines come before it.
rows-le :
    (n : ℕ) (e : Editor) (top lb : ℕ)
    → top ≤ lb
    → lb ≤ e.len
    → lb ≤ last_line n e top
    → count_lines (lb - top) e.buf top 0 ≤ n
unfolding last_line
rows-le zero e top lb le inside shown = omega (arith, count_lines-le (lb - top) e.buf top 0)
rows-le (suc n) e top lb le inside shown = elim (Bool-cases (leb lb (line_end e top))) [
  | inl one_line ↦ omega (
    arith,
    count_lines-none (lb - top) e.buf top 0 (λ j le' lt'.
        line_end_in-no_newline (e.len - top) e.buf top j le' (ground (arith, one_line, lt'))),
  )
  | inr more ↦
      let stop = line_end e top in
      let bounds = line_end_bounds e top (omega (arith, le, inside)) in
      let rest =
        rows-le n e (stop + 1) lb (ground (arith, more)) inside (ground (arith, shown, more)) in
      omega (
        arith,
        count_lines_split (stop + 1 - top) (lb - (stop + 1)) (lb - top) e.buf top (stop + 1) 0
            (ground (arith, more, bounds)) (ground (arith, bounds)),
        count_lines_from (lb - (stop + 1)) e.buf (stop + 1)
            (count_lines (stop + 1 - top) e.buf top 0),
        first_line-le e top stop bounds.0 refl,
        rest,
      )
]

-- The cursor's line has no newline before the cursor.
rows_to_cursor :
    (buf : Bytes) (top p : ℕ)
    → top ≤ line_begin buf p
    → count_lines (p - top) buf top 0 ≡ count_lines (line_begin buf p - top) buf top 0
rows_to_cursor buf top p le =
    let lb = line_begin buf p in
    count_lines_split (lb - top) (p - lb) (p - top) buf top lb 0
      (omega (arith, le, line_begin-le buf p)) (omega (arith, le))
    ∙ count_lines-none (p - lb) buf lb (count_lines (lb - top) buf top 0)
        (λ j le' lt'. line_begin-no_newline buf p j le' (omega (arith, lt', line_begin-le buf p)))

-- what `scroll_fix` leaves: the text and the cursor as they were, and the cursor on the screen
pub record IsShown (e e' : Editor) : Type 0 where
  pub text : (e'.buf ≡ e.buf) × (e'.len ≡ e.len) × (e'.pos ≡ e.pos)
  pub above : e'.top ≤ line_begin e.buf e.pos
  pub row : cursor_row e' < 23
  pub not_left : e'.offx ≤ col_of e.buf e.pos
  pub column : cursor_column e' < 80

-- With the cursor in the text, for every `top` and `offx`, and with a round of fuel more than the
-- larger of `top` and the length of the text: the loops of `scroll_fix` end, text and cursor stay, and the
-- text on the screen begins at or above the line of the cursor, which is drawn in one of the 23 rows and 80 columns of the text.
pub scroll_fix-IsShown :
    (f : ℕ) (e : Editor)
    → e.pos ≤ e.len
    → e.top < f
    → e.len < f
    → (e' : Editor) × (scroll_fix f e ≡ some e') × IsShown e e'
unfolding scroll_fix view_across cursor_row cursor_column
scroll_fix-IsShown f e inside top_fuel len_fuel =
    let lb = line_begin e.buf e.pos in
    let lb-le = line_begin-le e.buf e.pos in
    let (up, up_eq, up-le) = view_up_lem f e.buf lb e.top top_fuel in
    let (down, down_eq, down-le, shown) =
      view_down_lem f e lb up up-le (omega (arith, lb-le, inside))
        (omega (arith, lb-le, inside, len_fuel)) in
    (
      record e { top = down; offx = view_across (col_of e.buf e.pos) e.offx },
      ground (arith, up_eq, down_eq),
      record {
        text = (refl, refl, refl);
        above = down-le;
        row = omega (
          arith,
          rows_to_cursor e.buf down e.pos down-le,
          rows-le 22 e down lb down-le (omega (arith, lb-le, inside)) shown,
        );
        not_left = ground arith;
        column = ground arith;
      },
    )
