-- ===== src/Wm/Tests.antt =====
-- The theorems of the window manager at zeroed memory.
use lunaria_os.Base.{arith}
use lunaria_os.Terminal.{Terminal}
use lunaria_os.Wm.{Wm, wm_blit}
use lunaria_os.Wm.Blit.{InSync, wm_blit-InSync}

-- the `.bss` of the kernel, and a screen of question marks
abbrev zeroed : Terminal
zeroed = record {
  cursor_x = 0;
  cursor_y = 0;
  cells = λ j. 0;
  color = 0;
  buf = λ j. 0;
  len = 0;
  prompt = 0;
}

abbrev boot : Wm
boot = record { terms = λ i. zeroed; current_term = 0; vga = λ j. 63 }

wm_blit-InSync_example : InSync zeroed (wm_blit zeroed boot.vga) 1
wm_blit-InSync_example = wm_blit-InSync zeroed boot.vga 1 (omega arith) (omega arith)
