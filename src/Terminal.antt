-- ===== src/Terminal.antt =====
-- The text terminals of src/kernel/wm.c: a screen of 80 by 25 cells of two bytes (character,
-- attribute), a caret, and the functions that print on it. A cursor coordinate is an `int` that
-- the code never makes negative, so it is a number here. The children prove what the functions do.
pub mod Loops
pub mod Cursor
pub mod Scroll
mod Tests
use lunaria_os.Base.{
  ℕ, zero, suc, ◌+◌, ◌-◌, ◌*◌, List, [], ◌∷◌, Bool, ◌&&◌, Bytes, write, ltb, ◌==◌, if◌then◌else◌,
}

-- `color_t`: VGA_COLOR(bg, fg)
abbrev pub vga_color : ℕ → ℕ → ℕ
vga_color bg fg = bg * 16 + fg

abbrev pub white : ℕ
white = vga_color 0 15

pub record Terminal : Type 0 where
  pub cursor_x : ℕ
  pub cursor_y : ℕ
  pub cells : Bytes
  pub color : ℕ
  pub buf : Bytes
  pub len : ℕ
  pub prompt : ℕ

-- the first loop of `term_scroll`
unfoldable pub scroll_up : ℕ → ℕ → Bytes → Bytes
scroll_up zero i m = m
scroll_up (suc n) i m = scroll_up n (i + 1) (write m i (m (i + 160)))

-- `for (...; i += 2) { m[i] = ' '; m[i + 1] = color; }`, `n` rounds from `i`
unfoldable pub blank : ℕ → ℕ → ℕ → Bytes → Bytes
blank color zero i m = m
blank color (suc n) i m = blank color n (i + 2) (write (write m i 32) (i + 1) color)

unfoldable pub term_scroll : Terminal → Terminal
term_scroll t = record t { cells = blank t.color 80 3840 (scroll_up 3840 0 t.cells); cursor_y = 24 }

-- where the caret goes after a character, before any scrolling
unfoldable pub advance : Terminal → Terminal
advance t =
    if ltb (t.cursor_x + 1) 80
    then record t { cursor_x = t.cursor_x + 1 }
    else record t { cursor_x = 0; cursor_y = t.cursor_y + 1 }

-- two stores at the cell `index`
abbrev pub put_cell : Bytes → ℕ → ℕ → ℕ → Bytes
put_cell m index c color = write (write m (index * 2) c) (index * 2 + 1) color

-- The store of the character and the move of the caret, before the test for scrolling.
unfoldable pub place : Terminal → ℕ → ℕ → Terminal
unfolding advance
place t c color =
    if c == 10
    then record t { cursor_x = 0; cursor_y = t.cursor_y + 1 }
    else advance (record t { cells = put_cell t.cells (t.cursor_y * 80 + t.cursor_x) c color })

unfoldable pub term_putchar : Terminal → ℕ → ℕ → Terminal
term_putchar t c color =
    let t' = place t c color in if ltb 24 t'.cursor_y then term_scroll t' else t'

unfoldable pub term_putchar_at : Terminal → ℕ → ℕ → ℕ → ℕ → Terminal
term_putchar_at t c x y color =
    if c == 10 then t else record t { cells = put_cell t.cells (y * 80 + x) c color }

unfoldable pub term_clear : Terminal → Terminal
term_clear t = record t { cells = blank t.color 2000 0 t.cells; cursor_x = 0; cursor_y = 0 }

-- A C string is the list of its bytes; its end, or a zero byte, stops the loop.
unfoldable pub term_print_color : Terminal → List ℕ → ℕ → Terminal
term_print_color t [] color = t
term_print_color t (c ∷ s) color =
    let rest = term_print_color (term_putchar t c color) s color in if c == 0 then t else rest

-- The loop of `term_print`, which reads the colour of the terminal each time.
unfoldable pub term_print : Terminal → List ℕ → Terminal
term_print t [] = t
term_print t (c ∷ s) =
    let rest = term_print (term_putchar t c t.color) s in if c == 0 then t else rest

unfoldable pub term_backspace : Terminal → Terminal
term_backspace t =
    if (t.cursor_x == 0) && (t.cursor_y == 0)
    then t
    else (let t' : Terminal =
          if ltb 0 t.cursor_x
          then record t { cursor_x = t.cursor_x - 1 }
          else record t { cursor_y = t.cursor_y - 1; cursor_x = 79 } in
        record t' { cells = write t'.cells ((t'.cursor_y * 80 + t'.cursor_x) * 2) 32 })

unfoldable pub term_cursor_up : Terminal → Terminal
term_cursor_up t = if ltb 0 t.cursor_y then record t { cursor_y = t.cursor_y - 1 } else t

unfoldable pub term_cursor_down : Terminal → Terminal
term_cursor_down t = if ltb t.cursor_y 24 then record t { cursor_y = t.cursor_y + 1 } else t

unfoldable pub term_cursor_left : Terminal → Terminal
term_cursor_left t = if ltb 0 t.cursor_x then record t { cursor_x = t.cursor_x - 1 } else t

unfoldable pub term_cursor_right : Terminal → Terminal
term_cursor_right t = if ltb t.cursor_x 79 then record t { cursor_x = t.cursor_x + 1 } else t
