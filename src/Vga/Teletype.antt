-- ===== src/Vga/Teletype.antt =====
-- The boot screen does what a terminal of white text does.
use lunaria_os.Base.{
  ℕ, zero, suc, ◌+◌, ◌*◌, ◌<◌, ◌≡◌, refl, ap, sym, ◌∙◌, List, [], ◌∷◌, Bool, true, Bytes, write,
  ltb, ◌==◌, if◌then◌else◌, arith, Bool-cases, inl, inr,
}
use lunaria_os.Base.Table.{holds_under, holds_under_lem}
use lunaria_os.Terminal.{
  Terminal, white, term_putchar, term_print_color, place, advance, scroll_up, blank, term_scroll,
}
use lunaria_os.Wm.{swap_colors}
use lunaria_os.Vga.{
  Screen, put, scroll, putchar, print, clear_cells, move_rows, flip_cell, block_show, block_hide,
  hide,
}

-- the terminal that a screen amounts to
abbrev pub as_terminal : Screen → Terminal
as_terminal s = record {
  cursor_x = s.cursor_x;
  cursor_y = s.cursor_y;
  cells = s.vga;
  color = white;
  buf = λ j. 0;
  len = 0;
  prompt = 0;
}

move_rows_lem : (n i : ℕ) (m : Bytes) → move_rows n i m ≡ scroll_up n i m
unfolding move_rows scroll_up
move_rows_lem zero i m = refl
move_rows_lem (suc n) i m = move_rows_lem n (i + 1) (write m i (m (i + 160)))

clear_cells_lem : (color n i : ℕ) (m : Bytes) → clear_cells color n i m ≡ blank color n i m
unfolding clear_cells blank
clear_cells_lem color zero i m = refl
clear_cells_lem color (suc n) i m =
    clear_cells_lem color n (i + 2) (write (write m i 32) (i + 1) color)

scroll_same : (s : Screen) → as_terminal (scroll s) ≡ term_scroll (as_terminal s)
unfolding scroll term_scroll
scroll_same s =
    ap (λ (m : Bytes). record (as_terminal s) { cells = m; cursor_y = 24 })
      (clear_cells_lem 15 80 3840 (move_rows 3840 0 s.vga)
        ∙ ap (blank 15 80 3840) (move_rows_lem 3840 0 s.vga))

put_same : (s : Screen) (c color : ℕ) → as_terminal (put s c color) ≡ place (as_terminal s) c color
unfolding put place advance
put_same s c color = ground arith

-- the test for scrolling
settle : Terminal → Terminal
settle t = if ltb 24 t.cursor_y then term_scroll t else t

settle_same :
    (s : Screen) → as_terminal (if ltb 24 s.cursor_y then scroll s else s) ≡ settle (as_terminal s)
unfolding settle
settle_same s = elim (Bool-cases (ltb 24 s.cursor_y)) [
  | inl e ↦
      ap (λ (b : Bool). as_terminal (if b then scroll s else s)) e
      ∙ scroll_same s
      ∙ sym (ap (λ (b : Bool). if b then term_scroll (as_terminal s) else as_terminal s) e)
  | inr e ↦
      ap (λ (b : Bool). as_terminal (if b then scroll s else s)) e
      ∙ sym (ap (λ (b : Bool). if b then term_scroll (as_terminal s) else as_terminal s) e)
]

putchar_same :
    (s : Screen) (c color : ℕ)
    → as_terminal (putchar s c color) ≡ term_putchar (as_terminal s) c color
unfolding putchar term_putchar settle
putchar_same s c color = settle_same (put s c color) ∙ ap settle (put_same s c color)

-- Printing a string on the boot screen does to the buffer and the caret what `term_print_color` does
-- to a terminal whose own colour is white on black.
pub print-term_print_color :
    (s : Screen) (str : List ℕ) (color : ℕ)
    → as_terminal (print s str color) ≡ term_print_color (as_terminal s) str color
unfolding print term_print_color
print-term_print_color s [] color = refl
print-term_print_color s (c ∷ str) color = elim (Bool-cases (c == 0)) [
  | inl e ↦ ground (arith, e)
  | inr e ↦ ground (
    arith,
    e,
    print-term_print_color (putchar s c color) str color,
    ap (λ (t : Terminal). term_print_color t str color) (putchar_same s c color),
  )
]

-- A byte with its halves exchanged twice.
swap_table : holds_under 256 (λ b. swap_colors (swap_colors b) == b) ≡ true
unfolding holds_under swap_colors
swap_table = refl

-- Showing the block and hiding it restores every byte of the buffer, wherever the caret is.
pub hide-show :
    (s : Screen) (j : ℕ) → ((k : ℕ) → s.vga k < 256) → (block_hide (block_show s)).vga j ≡ s.vga j
unfolding block_hide block_show hide flip_cell
hide-show s j bytes = ground (
  arith,
  holds_under_lem 256 (λ b. swap_colors (swap_colors b) == b)
      (s.vga ((s.cursor_y * 80 + s.cursor_x) * 2 + 1)) swap_table (bytes _),
  ap s.vga here,
)
  where
    here : j ≡ (
        if j == (s.cursor_y * 80 + s.cursor_x) * 2 + 1
        then (s.cursor_y * 80 + s.cursor_x) * 2 + 1
        else j)
    here = ground arith
