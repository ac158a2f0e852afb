-- ===== src/Terminal/Cursor.antt =====
-- The caret stays on the screen, and every store stays inside the 4000 bytes of `cells`.
use lunaria_os.Base.{◌+◌, ℕ, ◌≤◌, ◌<◌, ◌≡◌, refl, List, [], ◌∷◌, arith}
use lunaria_os.Terminal.{
  Terminal, term_scroll, place, term_putchar, term_putchar_at, term_clear, term_print_color,
  term_print, term_backspace, term_cursor_up, term_cursor_down, term_cursor_left, term_cursor_right,
  scroll_up,
}
use lunaria_os.Terminal.Loops.{scroll_up_lem, blank_lem}

pub record IsOnScreen (t : Terminal) : Type 0 where
  pub column : t.cursor_x < 80
  pub row : t.cursor_y ≤ 24

-- `u` is on the screen, and differs from `t` in no byte outside the array `cells`
pub record Confined (t u : Terminal) : Type 0 where
  pub on_screen : IsOnScreen u
  pub inside : (j : ℕ) → u.cells (4000 + j) ≡ t.cells (4000 + j)

pub inside-term_scroll :
    (t : Terminal) (j : ℕ) → (term_scroll t).cells (4000 + j) ≡ t.cells (4000 + j)
unfolding term_scroll
inside-term_scroll t j = ground (
  arith,
  blank_lem t.color 80 1920 (scroll_up 3840 0 t.cells) (4000 + j),
  scroll_up_lem 3840 0 t.cells (4000 + j),
)

-- The row may be one too low, as between the move of the caret and the test for scrolling.
term_scroll-IsOnScreen : (t : Terminal) → t.cursor_x < 80 → IsOnScreen (term_scroll t)
unfolding term_scroll
term_scroll-IsOnScreen t h = omega arith

column-place : (t : Terminal) (c color : ℕ) → IsOnScreen t → (place t c color).cursor_x < 80
unfolding place
column-place t c color v = ground arith

inside-place :
    (t : Terminal) (c color j : ℕ)
    → IsOnScreen t
    → (place t c color).cells (4000 + j) ≡ t.cells (4000 + j)
unfolding place
inside-place t c color j v = ground arith

-- From a caret on the screen `term_putchar` keeps it there and stores inside the array, whatever the
-- byte, also where it wraps or scrolls.
pub term_putchar-Confined :
    (t : Terminal) (c color : ℕ) → IsOnScreen t → Confined t (term_putchar t c color)
unfolding term_putchar
term_putchar-Confined t c color v = record {
  on_screen = ground (
    arith,
    column-place t c color v,
    term_scroll-IsOnScreen (place t c color) (column-place t c color v),
  );
  inside = λ j. ground (arith, inside-place t c color j v, inside-term_scroll (place t c color) j);
}

-- From a caret on the screen, printing any string keeps it there and stores inside the array.
pub term_print_color-Confined :
    (t : Terminal) (s : List ℕ) (color : ℕ) → IsOnScreen t → Confined t (term_print_color t s color)
unfolding term_print_color
term_print_color-Confined t [] color v = record { on_screen = v; inside = λ j. refl }
term_print_color-Confined t (c ∷ s) color v =
    let one = term_putchar-Confined t c color v in
    let more = term_print_color-Confined (term_putchar t c color) s color one.on_screen in
    record { on_screen = ground arith; inside = λ j. ground (arith, one.inside j, more.inside j) }

pub term_print-Confined : (t : Terminal) (s : List ℕ) → IsOnScreen t → Confined t (term_print t s)
unfolding term_print
term_print-Confined t [] v = record { on_screen = v; inside = λ j. refl }
term_print-Confined t (c ∷ s) v =
    let one = term_putchar-Confined t c t.color v in
    let more = term_print-Confined (term_putchar t c t.color) s one.on_screen in
    record { on_screen = ground arith; inside = λ j. ground (arith, one.inside j, more.inside j) }

-- the other operations, the cell store at column `x` and row `y`
pub record EditsConfined (t : Terminal) (c x y color : ℕ) : Type 0 where
  pub clear : Confined t (term_clear t)
  pub putchar_at : Confined t (term_putchar_at t c x y color)
  pub backspace : Confined t (term_backspace t)
  pub up : Confined t (term_cursor_up t)
  pub down : Confined t (term_cursor_down t)
  pub left : Confined t (term_cursor_left t)
  pub right : Confined t (term_cursor_right t)

-- From a caret on the screen, clearing, storing at a cell that lies on the screen, backspace and the
-- four caret moves keep the caret on the screen and store inside the array.
pub edits_confined :
    (t : Terminal) (c x y color : ℕ) → IsOnScreen t → x < 80 → y < 25 → EditsConfined t c x y color
unfolding term_clear term_putchar_at term_backspace term_cursor_up term_cursor_down term_cursor_left
    term_cursor_right
edits_confined t c x y color v hx hy = record {
  clear = record {
    on_screen = omega arith;
    inside = λ j. ground (arith, blank_lem t.color 2000 0 t.cells (4000 + j));
  };
  putchar_at = record { on_screen = ground arith; inside = λ j. ground arith };
  backspace = record { on_screen = ground arith; inside = λ j. ground arith };
  up = record { on_screen = ground arith; inside = λ j. ground arith };
  down = record { on_screen = ground arith; inside = λ j. ground arith };
  left = record { on_screen = ground arith; inside = λ j. ground arith };
  right = record { on_screen = ground arith; inside = λ j. ground arith };
}
