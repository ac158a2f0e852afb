-- ===== src/Keyboard/Tests.antt =====
-- Key presses, and the theorems at a small keyboard.
use lunaria_os.Base.{◌≡◌, refl, [], ◌∷◌, ◌++◌, true, false, arith, if◌then◌else◌, ◌==◌, length}
use lunaria_os.Keyboard.{Kbd, keyboard_handler, decode, make_plain, make_extended, key_char, key_up}
use lunaria_os.Keyboard.Ring.{IsRing, contents, keyboard_handler_lem}
use lunaria_os.Keyboard.Decode.{Held, Shows, step, decode-Shows}

abbrev idle : Kbd
idle = record {
  buffer = λ i. 0x1e;
  head = 2;
  tail = 1;
  modifiers = 1;
  caps_lock = false;
  extended = false;
}

abbrev shift_held : Held
shift_held = record {
  shift_down = true;
  ctrl_down = false;
  alt_down = false;
  super_down = false;
  caps = false;
  prefixed = false;
}

idle-IsRing : IsRing idle
idle-IsRing = omega arith

idle-Shows : Shows idle shift_held
idle-Shows = record { mods = refl; caps = refl; prefix = refl }

capital : (decode idle 0x1e).1 ≡ b'A'
unfolding decode make_plain key_char
capital = refl

arrow : (decode (record idle { extended = true }) 0x48).1 ≡ key_up
unfolding decode make_extended
arrow = refl

keyboard_handler_lem_example :
    IsRing (keyboard_handler idle 0x2a)
    × (contents (keyboard_handler idle 0x2a)
        ≡ (if length (contents idle) == 255 then contents idle else contents idle ++ 0x2a ∷ []))
keyboard_handler_lem_example = keyboard_handler_lem idle 0x2a idle-IsRing

decode-Shows_example : Shows (decode idle 0xaa).0 (step shift_held 0xaa)
decode-Shows_example = decode-Shows idle shift_held 0xaa idle-Shows (omega arith)
