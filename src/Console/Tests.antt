-- ===== src/Console/Tests.antt =====
-- A program's calls on a fresh screen.
use lunaria_os.Base.{refl, List, [], ◌∷◌, arith}
use lunaria_os.Base.Int.{pos}
use lunaria_os.Terminal.{Terminal, white}
use lunaria_os.Wm.{Wm}
use lunaria_os.Wm.Blit.{shown}
use lunaria_os.Wm.Switch.{IsInStep}
use lunaria_os.Console.{Call, write, clear, putchar_at, goto_xy, switch, run}
use lunaria_os.Console.Sync.{run-IsInStep}

-- blank terminals, and a screen that shows the first with its caret
abbrev blank_term : Terminal
blank_term = record {
  cursor_x = 0;
  cursor_y = 0;
  cells = λ j. 0;
  color = white;
  buf = λ j. 0;
  len = 0;
  prompt = 0;
}

abbrev start : Wm
start = record { terms = λ i. blank_term; current_term = 0; vga = shown blank_term }

-- two bytes, a cell, the caret to the last corner, another terminal
abbrev script : List Call
script = write (λ i. 72) 2 ∷ putchar_at 65 5 7 white ∷ goto_xy 79 24 ∷ switch (pos 3) ∷ clear ∷ []

start-IsInStep : IsInStep start 15
start-IsInStep = record { carets = λ i. omega arith; same = refl }

run-IsInStep_example : IsInStep (run start script) 15
run-IsInStep_example = run-IsInStep start script 15 start-IsInStep (omega arith)
