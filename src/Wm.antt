-- ===== src/Wm.antt =====
-- The window manager of src/kernel/wm.c: ten terminals, the one on show, and the VGA text buffer at
-- 0xb8000 into which it is copied. `terms` and `current_term` are its state; `vga` is the device's
-- memory, indexed from 0xb8000.
pub mod Blit
pub mod Switch
mod Tests
use lunaria_os.Base.{
  ℕ, zero, suc, ◌+◌, ◌*◌, ◌/◌, ◌%◌, List, bit_or, Bool, ◌&&◌, Bytes, write, each, ltb, leb, ◌==◌,
  if◌then◌else◌,
}
use lunaria_os.Base.Int.{ℤ, pos, negsuc}
use lunaria_os.Terminal.{Terminal, term_clear, white}

abbrev pub max_terms : ℕ
max_terms = 10

pub record Wm : Type 0 where
  pub terms : ℕ → Terminal
  pub current_term : ℕ
  pub vga : Bytes

-- a store into `terms[i]`
abbrev pub set_term : Wm → ℕ → Terminal → Wm
set_term w i t = record w { terms = λ j. if j == i then t else w.terms j }

unfoldable pub wm_current : Wm → Terminal
wm_current w = w.terms w.current_term

-- `(attr >> 4) | (attr << 4)`, cast to a byte: the two colours change places
unfoldable pub swap_colors : ℕ → ℕ
swap_colors attr = bit_or (attr / 16) (attr * 16) % 256

-- `memcpy(vga + from, cells + from, n)`
unfoldable pub copy_cells : Bytes → ℕ → ℕ → Bytes → Bytes
unfolding each
copy_cells cells n from vga = each (λ i old. cells i) n from vga

abbrev pub invert : Bytes → ℕ → Bytes
invert vga i = write vga i (swap_colors (vga i))

-- On numbers the test `t->cursor_x >= 0` holds.
unfoldable pub wm_blit : Terminal → Bytes → Bytes
wm_blit t vga =
    let shown = copy_cells t.cells 4000 0 vga in
    if leb t.cursor_y 24 && leb t.cursor_x 79
    then invert shown ((t.cursor_y * 80 + t.cursor_x) * 2 + 1)
    else shown

unfoldable pub wm_blit_row : Terminal → ℕ → Bytes → Bytes
wm_blit_row t y vga =
    let shown = copy_cells t.cells 160 (y * 160) vga in
    if ltb 24 y
    then vga
    else if (t.cursor_y == y) && leb t.cursor_x 79
    then invert shown ((y * 80 + t.cursor_x) * 2 + 1)
    else shown

-- `wm_blit(&terms[i])`
abbrev pub blit_term : Wm → ℕ → Wm
blit_term w i = record w { vga = wm_blit (w.terms i) w.vga }

-- The loop of `wm_init`, `n` rounds from `i`.
unfoldable pub init_terms : ℕ → ℕ → Wm → Wm
init_terms zero i w = w
init_terms (suc n) i w =
    init_terms n (i + 1)
      (set_term w i (term_clear (record (w.terms i) { color = white; len = 0; prompt = 0 })))

unfoldable pub wm_init : Wm → Wm
unfolding init_terms
wm_init w =
    let cleared = init_terms max_terms 0 w in blit_term (record cleared { current_term = 0 }) 0

unfoldable pub wm_switch : Wm → ℤ → Wm
wm_switch w (negsuc idx) = w
wm_switch w (pos idx) =
    if leb max_terms idx then w else blit_term (record w { current_term = idx }) idx
