-- ===== src/Console/Sync.antt =====
-- The console calls keep the screen in step with the terminal on show, byte by byte, and keep every
-- caret on its screen.
use lunaria_os.Base.{◌%◌, ◌%◌, ◌%◌, ◌^◌, ◌%◌, [], ◌∷◌, List, ℕ, zero, suc, ◌+◌, ◌<◌, arith, Bytes}
use lunaria_os.Terminal.{Terminal, white, term_putchar, term_putchar_at, term_clear}
use lunaria_os.Terminal.Cursor.{IsOnScreen, term_putchar-Confined}
use lunaria_os.Wm.{Wm, wm_current, wm_blit_row}
use lunaria_os.Wm.Switch.{IsInStep, wm_switch-IsInStep}
use lunaria_os.Wm.Blit.{shown, wm_blit-InSync, wm_blit_row_lem, putchar_at-InSync}
use lunaria_os.Console.{
  put_bytes, sys_write, sys_clear, sys_putchar_at, sys_goto_xy, Call, write, clear, putchar_at,
  goto_xy, switch, call, run,
}

put_bytes-IsOnScreen :
    (t : Terminal) (buf : Bytes) (i n : ℕ) → IsOnScreen t → IsOnScreen (put_bytes t buf i n)
unfolding put_bytes
put_bytes-IsOnScreen t buf i zero v = v
put_bytes-IsOnScreen t buf i (suc n) v =
    put_bytes-IsOnScreen (term_putchar t (buf i) white) buf (i + 1) n
      (term_putchar-Confined t (buf i) white v).on_screen

sys_write-IsInStep :
    (w : Wm) (buf : Bytes) (len j : ℕ) → IsInStep w j → j < 4000 → IsInStep (sys_write w buf len) j
unfolding sys_write wm_current
sys_write-IsInStep w buf len j v h =
    let t = put_bytes (wm_current w) buf 0 len in
    let ok = put_bytes-IsOnScreen (wm_current w) buf 0 len (v.carets w.current_term) in
    record {
      carets = λ i. ground (arith, v.carets i);
      same = ground (arith, wm_blit-InSync t w.vga j ok h);
    }

sys_clear-IsInStep : (w : Wm) (j : ℕ) → IsInStep w j → j < 4000 → IsInStep (sys_clear w) j
unfolding sys_clear wm_current term_clear
sys_clear-IsInStep w j v h = record {
  carets = λ i. ground (arith, v.carets i);
  same = ground (arith, wm_blit-InSync (term_clear (wm_current w)) w.vga j (omega arith) h);
}

sys_putchar_at-IsInStep :
    (w : Wm) (c x y color j : ℕ) → IsInStep w j → IsInStep (sys_putchar_at w c x y color) j
unfolding sys_putchar_at wm_current term_putchar_at
sys_putchar_at-IsInStep w c x y color j v =
    let t = wm_current w in
    let ok = v.carets w.current_term in
    record {
      carets = λ i. ground (arith, v.carets i);
      same = ground (arith, putchar_at-InSync t w.vga (c % 2 ^ 8) x y (color % 2 ^ 8) j ok);
    }

sys_goto_xy-IsInStep : (w : Wm) (x y j : ℕ) → IsInStep w j → IsInStep (sys_goto_xy w x y) j
unfolding sys_goto_xy wm_current shown
sys_goto_xy-IsInStep w x y j v =
    let t = wm_current w in
    let ok = v.carets w.current_term in
    let u : Terminal = record t { cursor_x = x; cursor_y = y } in
    record {
      carets = λ i. ground (arith, v.carets i);
      same = ground (
        arith,
        wm_blit_row_lem u t.cursor_y w.vga j,
        wm_blit_row_lem u y (wm_blit_row u t.cursor_y w.vga) j,
      );
    }

call-IsInStep : (w : Wm) (c : Call) (j : ℕ) → IsInStep w j → j < 4000 → IsInStep (call w c) j
unfolding call
call-IsInStep w (write buf len) j v h = sys_write-IsInStep w buf len j v h
call-IsInStep w clear j v h = sys_clear-IsInStep w j v h
call-IsInStep w (putchar_at c x y color) j v h = sys_putchar_at-IsInStep w c x y color j v
call-IsInStep w (goto_xy x y) j v h = sys_goto_xy-IsInStep w x y j v
call-IsInStep w (switch idx) j v h = wm_switch-IsInStep w idx j v h

-- Any sequence of console calls, with any arguments, and of switches between the terminals leaves
-- every byte of the screen in step with the terminal on show, and every caret on its screen.
pub run-IsInStep :
    (w : Wm) (cs : List Call) (j : ℕ) → IsInStep w j → j < 4000 → IsInStep (run w cs) j
unfolding run
run-IsInStep w [] j v h = v
run-IsInStep w (c ∷ cs) j v h = run-IsInStep (call w c) cs j (call-IsInStep w c j v h) h
