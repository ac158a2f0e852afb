-- ===== src/Vga/Tests.antt =====
-- The boot screen at a small text.
use lunaria_os.Base.{◌≡◌, [], ◌∷◌, none}
use lunaria_os.Terminal.{white, term_print_color}
use lunaria_os.Vga.{Screen, print}
use lunaria_os.Vga.Teletype.{as_terminal, print-term_print_color}

abbrev last_cell : Screen
last_cell = record { vga = λ j. 7; cursor_x = 79; cursor_y = 24; block = none }

print-term_print_color_example :
    as_terminal (print last_cell (72 ∷ 10 ∷ 73 ∷ []) white)
    ≡ term_print_color (as_terminal last_cell) (72 ∷ 10 ∷ 73 ∷ []) white
print-term_print_color_example = print-term_print_color last_cell (72 ∷ 10 ∷ 73 ∷ []) white
