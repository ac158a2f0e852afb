-- ===== src/Wm/Blit.antt =====
-- What the screen shows after a copy, whole or by rows, and that row copies keep it in step.
use lunaria_os.Base.{
  ℕ, ◌+◌, ◌*◌, ◌<◌, ◌≤◌, ◌≡◌, arith, Bytes, each_lem, in_range, ◌==◌, if◌then◌else◌,
}
use lunaria_os.Terminal.{Terminal, term_putchar_at}
use lunaria_os.Terminal.Cursor.{IsOnScreen}
use lunaria_os.Wm.{swap_colors, copy_cells, wm_blit, wm_blit_row}

-- the byte that the screen owes to a terminal: its own, but for the attribute under the caret
unfoldable pub shown : Terminal → ℕ → ℕ
shown t j =
    if (t.cursor_y * 80 + t.cursor_x) * 2 + 1 == j then swap_colors (t.cells j) else t.cells j

-- the screen is in step with the terminal in the byte `j`
abbrev pub InSync : Terminal → Bytes → ℕ → Type 0
InSync t vga j = vga j ≡ shown t j

copy_cells_lem :
    (cells : Bytes) (n from : ℕ) (vga : Bytes) (j : ℕ)
    → copy_cells cells n from vga j ≡ (if in_range from (from + n) j then cells j else vga j)
unfolding copy_cells
copy_cells_lem cells n from vga j = each_lem (λ i old. cells i) n from vga j

-- The copy of the whole screen shows every cell of the terminal, with the caret inverted.
pub wm_blit-InSync :
    (t : Terminal) (vga : Bytes) (j : ℕ) → IsOnScreen t → j < 4000 → InSync t (wm_blit t vga) j
unfolding wm_blit shown
wm_blit-InSync t vga j v h = ground (
  arith,
  copy_cells_lem t.cells 4000 0 vga j,
  copy_cells_lem t.cells 4000 0 vga ((t.cursor_y * 80 + t.cursor_x) * 2 + 1),
)

-- The copy of a row shows the bytes of that row, and leaves the other bytes as they were.
pub wm_blit_row_lem :
    (t : Terminal) (y : ℕ) (vga : Bytes) (j : ℕ)
    → IsOnScreen t
    → y ≤ 24
    → wm_blit_row t y vga j ≡ (if in_range (y * 160) (y * 160 + 160) j then shown t j else vga j)
unfolding wm_blit_row shown
wm_blit_row_lem t y vga j v h = ground (
  arith,
  copy_cells_lem t.cells 160 (y * 160) vga j,
  copy_cells_lem t.cells 160 (y * 160) vga ((y * 80 + t.cursor_x) * 2 + 1),
)

-- Syscall 9: after a store at a cell, the copy of its row brings the whole screen in step again.
pub putchar_at-InSync :
    (t : Terminal) (vga : Bytes) (c x y color : ℕ) (j : ℕ)
    → IsOnScreen t
    → x < 80
    → y < 25
    → InSync t vga j
    → let u = term_putchar_at t c x y color in InSync u (wm_blit_row u y vga) j
unfolding shown term_putchar_at
putchar_at-InSync t vga c x y color j v hx hy same =
    ground (arith, wm_blit_row_lem (term_putchar_at t c x y color) y vga j)
