-- ===== src/Console.antt =====
-- The console system calls of src/kernel/syscall.c, over the window manager: 1 (write), 8 (clear),
-- 9 (store at a cell) and 10 (move the caret).
pub mod Sync
mod Tests
use lunaria_os.Base.{
  ◌^◌, ◌%◌, [], ◌∷◌, ℕ, zero, suc, ◌+◌, List, Bool, ◌&&◌, not, Bytes, ltb, ◌==◌, if◌then◌else◌,
}
use lunaria_os.Terminal.{Terminal, white, term_putchar, term_putchar_at, term_clear}
use lunaria_os.Base.Int.{ℤ}
use lunaria_os.Wm.{Wm, wm_switch, set_term, wm_current, wm_blit, wm_blit_row}

-- the terminal on show, and the screen, after a change of that terminal
abbrev pub update_current : Wm → Terminal → Bytes → Wm
update_current w t vga = record w { terms = (set_term w w.current_term t).terms; vga = vga }

-- the loop of `sys_write`: `n` bytes of the buffer from index `i`
unfoldable pub put_bytes : Terminal → Bytes → ℕ → ℕ → Terminal
put_bytes t buf i zero = t
put_bytes t buf i (suc n) = put_bytes (term_putchar t (buf i) white) buf (i + 1) n

pub sys_write : Wm → Bytes → ℕ → Wm
sys_write w buf len =
    let t = put_bytes (wm_current w) buf 0 len in update_current w t (wm_blit t w.vga)

pub sys_clear : Wm → Wm
sys_clear w = let t = term_clear (wm_current w) in update_current w t (wm_blit t w.vga)

pub sys_putchar_at : Wm → ℕ → ℕ → ℕ → ℕ → Wm
sys_putchar_at w c x y color =
    let t = term_putchar_at (wm_current w) (c % 2 ^ 8) x y (color % 2 ^ 8) in
    if ltb x 80 && ltb y 25 then update_current w t (wm_blit_row t y w.vga) else w

pub sys_goto_xy : Wm → ℕ → ℕ → Wm
sys_goto_xy w x y =
    let old = wm_current w in
    let oy = old.cursor_y in
    let t : Terminal = record old { cursor_x = x; cursor_y = y } in
    let first = wm_blit_row t oy w.vga in
    let both = if oy == y then first else wm_blit_row t y first in
    if ltb x 80 && ltb y 25 then update_current w t both else w

-- The calls of a program, and the switch that the shell makes between two of them.
pub data Call : Type 0 where
  write : Bytes → ℕ → Call
  clear : Call
  putchar_at : ℕ → ℕ → ℕ → ℕ → Call
  goto_xy : ℕ → ℕ → Call
  switch : ℤ → Call

pub call : Wm → Call → Wm
call w (write buf len) = sys_write w buf len
call w clear = sys_clear w
call w (putchar_at c x y color) = sys_putchar_at w c x y color
call w (goto_xy x y) = sys_goto_xy w x y
call w (switch idx) = wm_switch w idx

pub run : Wm → List Call → Wm
run w [] = w
run w (c ∷ cs) = run (call w c) cs
