-- ===== src/Vga.antt =====
-- The text screen of src/drivers/vga.c, which the kernel prints on before it has terminals: the VGA
-- buffer at 0xb8000, a caret, and the block that marks the caret. `block` is none where the code
-- has -1 in `block_x` and `block_y`. The caret's coordinates never become negative.
pub mod Teletype
mod Tests
use lunaria_os.Base.{
  ℕ, zero, suc, ◌+◌, ◌-◌, ◌*◌, List, [], ◌∷◌, Bool, ◌&&◌, Option, none, some, Bytes, write, ltb,
  ◌==◌, if◌then◌else◌,
}
use lunaria_os.Wm.{swap_colors}

pub record Screen : Type 0 where
  pub vga : Bytes
  pub cursor_x : ℕ
  pub cursor_y : ℕ
  pub block : Option (ℕ × ℕ)

unfoldable pub flip_cell : Bytes → ℕ → ℕ → Bytes
flip_cell vga x y = let i = y * 80 + x in write vga (i * 2 + 1) (swap_colors (vga (i * 2 + 1)))

unfoldable pub hide : Screen → Option (ℕ × ℕ) → Screen
hide s none = s
hide s (some (x, y)) = record s { vga = flip_cell s.vga x y; block = none }

unfoldable pub block_hide : Screen → Screen
block_hide s = hide s s.block

unfoldable pub block_show : Screen → Screen
block_show s = record s {
  vga = flip_cell s.vga s.cursor_x s.cursor_y;
  block = some (s.cursor_x, s.cursor_y);
}

pub cursor_up : Screen → Screen
cursor_up s = if ltb 0 s.cursor_y then record s { cursor_y = s.cursor_y - 1 } else s

pub cursor_down : Screen → Screen
cursor_down s = if ltb s.cursor_y 24 then record s { cursor_y = s.cursor_y + 1 } else s

pub cursor_left : Screen → Screen
cursor_left s = if ltb 0 s.cursor_x then record s { cursor_x = s.cursor_x - 1 } else s

pub cursor_right : Screen → Screen
cursor_right s = if ltb s.cursor_x 79 then record s { cursor_x = s.cursor_x + 1 } else s

-- the two loops of `scroll`: over the bytes of the first 24 rows, and over the cells of the last
unfoldable pub move_rows : ℕ → ℕ → Bytes → Bytes
move_rows zero i m = m
move_rows (suc n) i m = move_rows n (i + 1) (write m i (m (i + 160)))

unfoldable pub clear_cells : ℕ → ℕ → ℕ → Bytes → Bytes
clear_cells color zero i m = m
clear_cells color (suc n) i m = clear_cells color n (i + 2) (write (write m i 32) (i + 1) color)

unfoldable pub scroll : Screen → Screen
scroll s = record s { vga = clear_cells 15 80 3840 (move_rows 3840 0 s.vga); cursor_y = 24 }

abbrev pub store : Bytes → ℕ → ℕ → ℕ → Bytes
store m index c color = write (write m (index * 2) c) (index * 2 + 1) color

-- `putchar` before its test for scrolling
unfoldable pub put : Screen → ℕ → ℕ → Screen
put s c color =
    let stored = store s.vga (s.cursor_y * 80 + s.cursor_x) c color in
    if c == 10
    then record s { cursor_x = 0; cursor_y = s.cursor_y + 1 }
    else if ltb (s.cursor_x + 1) 80
    then record s { vga = stored; cursor_x = s.cursor_x + 1 }
    else record s { vga = stored; cursor_x = 0; cursor_y = s.cursor_y + 1 }

unfoldable pub putchar : Screen → ℕ → ℕ → Screen
putchar s c color = let s' = put s c color in if ltb 24 s'.cursor_y then scroll s' else s'

unfoldable pub putchar_at : Screen → ℕ → ℕ → ℕ → ℕ → Screen
putchar_at s c x y color =
    if c == 10 then s else record s { vga = store s.vga (y * 80 + x) c color }

unfoldable pub clear : Screen → ℕ → Screen
clear s color = record s { vga = clear_cells color 2000 0 s.vga; cursor_x = 0; cursor_y = 0 }

unfoldable pub print : Screen → List ℕ → ℕ → Screen
print s [] color = s
print s (c ∷ str) color =
    let rest = print (putchar s c color) str color in if c == 0 then s else rest

-- `bkspc` behind its first test: one cell back, and a blank with the cell's attribute
unfoldable pub back : Screen → Screen
back s =
    if ltb 0 s.cursor_x
    then record s { cursor_x = s.cursor_x - 1 }
    else record s { cursor_y = s.cursor_y - 1; cursor_x = 79 }

unfoldable pub bkspc : Screen → Screen
bkspc s =
    let s' = back s in
    let attr = s'.vga ((s'.cursor_y * 80 + s'.cursor_x) * 2 + 1) in
    if (s.cursor_x == 0) && (s.cursor_y == 0)
    then s
    else putchar_at s' 32 s'.cursor_x s'.cursor_y attr
