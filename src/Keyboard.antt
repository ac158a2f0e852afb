-- ===== src/Keyboard.antt =====
-- The keyboard driver of src/drivers/keyboard.c: the interrupt handler puts scancodes into a ring of
-- 256 bytes, and `kbd_getc` takes one out and decodes it (scancode set 1), keeping track of the
-- modifier keys, caps lock and the extended prefix 0xe0.
pub mod Ring
pub mod Decode
mod Tests
use mathlib.Core.Option
use lunaria_os.Base.{
  ℕ, zero, suc, ◌+◌, ◌-◌, ◌%◌, ◌^◌, List, [], ◌∷◌, Bool, true, false, not, ◌&&◌, ◌||◌, Option, none,
  some, bit_and, bit_or, Bytes, write, get_or, ltb, leb, ◌==◌, if◌then◌else◌,
}

pub record Kbd : Type 0 where
  pub buffer : Bytes
  pub head : ℕ
  pub tail : ℕ
  pub modifiers : ℕ
  pub caps_lock : Bool
  pub extended : Bool

abbrev pub mod_shift : ℕ
mod_shift = 1

abbrev pub mod_ctrl : ℕ
mod_ctrl = 2

abbrev pub mod_alt : ℕ
mod_alt = 4

abbrev pub mod_super : ℕ
mod_super = 8

-- The tables; the entries that the initialisers do not name are 0, which `get_or` supplies.
abbrev pub scancodes : List ℕ
scancodes =
    0 ∷ 27 ∷ 49 ∷ 50 ∷ 51 ∷ 52 ∷ 53 ∷ 54 ∷ 55 ∷ 56 ∷ 57 ∷ 48 ∷ 45 ∷ 61 ∷ 8 ∷ 9 ∷ 113 ∷ 119 ∷ 101
    ∷ 114 ∷ 116 ∷ 121 ∷ 117 ∷ 105 ∷ 111 ∷ 112 ∷ 91 ∷ 93 ∷ 10 ∷ 0 ∷ 97 ∷ 115 ∷ 100 ∷ 102 ∷ 103 ∷ 104
    ∷ 106 ∷ 107 ∷ 108 ∷ 59 ∷ 39 ∷ 96 ∷ 0 ∷ 92 ∷ 122 ∷ 120 ∷ 99 ∷ 118 ∷ 98 ∷ 110 ∷ 109 ∷ 44 ∷ 46 ∷ 47
    ∷ 0 ∷ 42 ∷ 0 ∷ 32 ∷ []

abbrev pub scancodes_shift : List ℕ
scancodes_shift =
    0 ∷ 27 ∷ 33 ∷ 64 ∷ 35 ∷ 36 ∷ 37 ∷ 94 ∷ 38 ∷ 42 ∷ 40 ∷ 41 ∷ 95 ∷ 43 ∷ 8 ∷ 9 ∷ 81 ∷ 87 ∷ 69 ∷ 82
    ∷ 84 ∷ 89 ∷ 85 ∷ 73 ∷ 79 ∷ 80 ∷ 123 ∷ 125 ∷ 10 ∷ 0 ∷ 65 ∷ 83 ∷ 68 ∷ 70 ∷ 71 ∷ 72 ∷ 74 ∷ 75 ∷ 76
    ∷ 58 ∷ 34 ∷ 126 ∷ 0 ∷ 124 ∷ 90 ∷ 88 ∷ 67 ∷ 86 ∷ 66 ∷ 78 ∷ 77 ∷ 60 ∷ 62 ∷ 63 ∷ 0 ∷ 42 ∷ 0 ∷ 32
    ∷ []

-- `sc` is the byte that `inb` reads from the controller.
unfoldable pub keyboard_handler : Kbd → ℕ → Kbd
keyboard_handler k sc =
    let next = (k.head + 1) % 256 in
    if next == k.tail then k else record k { buffer = write k.buffer k.head sc; head = next }

-- `modifiers |= m` and `modifiers &= ~m`
abbrev pub press : Kbd → ℕ → Kbd
press k m = record k { modifiers = bit_or k.modifiers m }

abbrev pub release : Kbd → ℕ → Kbd
release k m = record k { modifiers = bit_and k.modifiers (2 ^ 32 - 1 - m) }

-- the break codes behind 0xe0, and without it
unfoldable pub break_extended : Kbd → ℕ → Kbd
break_extended k key =
    if key == 0x1d
    then release k mod_ctrl
    else if key == 0x38
    then release k mod_alt
    else if key == 0x5b || key == 0x5c
    then release k mod_super
    else k

unfoldable pub break_plain : Kbd → ℕ → Kbd
break_plain k key =
    if key == 0x2a || key == 0x36
    then release k mod_shift
    else if key == 0x1d
    then release k mod_ctrl
    else if key == 0x38
    then release k mod_alt
    else k

abbrev pub key_up : ℕ
key_up = 0xe0

abbrev pub key_down : ℕ
key_down = 0xe1

abbrev pub key_left : ℕ
key_left = 0xe2

abbrev pub key_right : ℕ
key_right = 0xe3

unfoldable pub make_extended : Kbd → ℕ → Kbd × ℕ
make_extended k sc =
    if sc == 0x1d
    then (press k mod_ctrl, 0)
    else if sc == 0x38
    then (press k mod_alt, 0)
    else if sc == 0x5b || sc == 0x5c
    then (press k mod_super, 0)
    else if sc == 0x48
    then (k, key_up)
    else if sc == 0x50
    then (k, key_down)
    else if sc == 0x4b
    then (k, key_left)
    else if sc == 0x4d
    then (k, key_right)
    else (k, 0)

abbrev pub has_mod : Kbd → ℕ → Bool
has_mod k m = not (bit_and k.modifiers m == 0)

-- `a ^ b` on truth values
abbrev pub differ : Bool → Bool → Bool
differ true b = not b
differ false b = b

unfoldable pub key_char : Kbd → ℕ → ℕ
key_char k sc =
    let base = get_or scancodes sc 0 in
    let shifted = get_or scancodes_shift sc 0 in
    if leb 97 base && leb base 122
    then (if differ (has_mod k mod_shift) k.caps_lock then shifted else base)
    else if has_mod k mod_shift
    then shifted
    else base

unfoldable pub make_plain : Kbd → ℕ → Kbd × ℕ
make_plain k sc =
    if sc == 0x2a || sc == 0x36
    then (press k mod_shift, 0)
    else if sc == 0x1d
    then (press k mod_ctrl, 0)
    else if sc == 0x38
    then (press k mod_alt, 0)
    else if sc == 0x3a
    then (record k { caps_lock = not k.caps_lock }, 0)
    else (k, key_char k sc)

-- the part of `kbd_getc` behind the ring: `sc & 0x80` marks a break code of the key `sc & 0x7f`
unfoldable pub decode : Kbd → ℕ → Kbd × ℕ
decode k sc =
    let plain = record k { extended = false } in
    if sc == 0xe0
    then (record k { extended = true }, 0)
    else if leb 0x80 sc
    then (if k.extended
        then (break_extended plain (sc - 0x80), 0)
        else (break_plain k (sc - 0x80), 0))
    else if k.extended
    then make_extended plain sc
    else make_plain k sc

-- `none` while the ring is empty, where the code waits for an interrupt.
unfoldable pub kbd_getc : Kbd → Option (Kbd × ℕ)
kbd_getc k =
    if k.head == k.tail
    then none
    else some (decode (record k { tail = (k.tail + 1) % 256 }) (k.buffer k.tail))

pub kbd_mods : Kbd → ℕ
kbd_mods k = k.modifiers

pub caps_active : Kbd → Bool
caps_active k = k.caps_lock

-- the loop of `kbd_flush`, with fuel
unfoldable pub flush_loop : ℕ → Kbd → Option Kbd
flush_loop zero k = none
flush_loop (suc f) k =
    let rest = flush_loop f (record k { tail = (k.tail + 1) % 256 }) in
    if k.head == k.tail then some k else rest

unfoldable pub kbd_flush : Kbd → Option Kbd
kbd_flush k = Option.map (λ (u : Kbd). record u { extended = false }) (flush_loop 256 k)
