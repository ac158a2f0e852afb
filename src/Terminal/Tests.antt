-- ===== src/Terminal/Tests.antt =====
-- Runs of the terminal, and the theorems at concrete terminals.
use lunaria_os.Base.{ℕ, ◌≡◌, refl, ◌∷◌, [], arith}
use lunaria_os.Terminal.{Terminal, white, place, term_putchar, term_print_color}
use lunaria_os.Terminal.Cursor.{
  IsOnScreen, Confined, term_putchar-Confined, term_print_color-Confined,
}
use lunaria_os.Terminal.Scroll.{IsTyped, term_putchar_lem}

-- a terminal with an `x` in every cell and the caret at a column and a row
abbrev filled : ℕ → ℕ → Terminal
filled x y = record {
  cursor_x = x;
  cursor_y = y;
  cells = λ j. 120;
  color = white;
  buf = λ j. 0;
  len = 0;
  prompt = 0;
}

filled-IsOnScreen : IsOnScreen (filled 79 24)
filled-IsOnScreen = omega arith

hi_text : (term_print_color (filled 78 0) (72 ∷ 73 ∷ 10 ∷ 33 ∷ []) white).cursor_y ≡ 2
unfolding term_print_color term_putchar place
hi_text = refl

term_putchar-Confined_example : Confined (filled 79 24) (term_putchar (filled 79 24) 72 white)
term_putchar-Confined_example = term_putchar-Confined (filled 79 24) 72 white filled-IsOnScreen

term_print_color-Confined_example :
    Confined (filled 79 24) (term_print_color (filled 79 24) (72 ∷ 10 ∷ 73 ∷ []) white)
term_print_color-Confined_example =
    term_print_color-Confined (filled 79 24) (72 ∷ 10 ∷ 73 ∷ []) white filled-IsOnScreen

-- in the last cell, so that the screen scrolls
term_putchar_lem_example :
    IsTyped (filled 79 24) 72 white (term_putchar (filled 79 24) 72 white) 1919
term_putchar_lem_example =
    term_putchar_lem (filled 79 24) 72 white 1919 filled-IsOnScreen (omega arith) (omega arith)
