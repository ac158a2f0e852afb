-- ===== src/Shell/Prompt.antt =====
-- The line editor of `shell_run`: what a key does that `kbd_getc` gave, with the modifiers of
-- `kbd_mods`. The terminals are those of Wm; `t` of the code is always the current one.
use lunaria_os.Base.{
  ℕ, zero, suc, ◌+◌, ◌-◌, List, [], ◌∷◌, ◌&&◌, Option, none, some, Bytes, write, ltb, leb, ◌==◌,
  if◌then◌else◌, bit_and,
}
use lunaria_os.Base.Int.{pos}
use lunaria_os.Keyboard.{mod_ctrl}
use lunaria_os.Terminal.{Terminal, term_putchar, term_backspace, term_print_color, white, vga_color}
use lunaria_os.Wm.{Wm, wm_current, wm_switch, set_term, blit_term}

abbrev pub term_buf_size : ℕ
term_buf_size = 128

-- "sherenity > "
abbrev pub prompt_text : List ℕ
prompt_text = b's' ∷ b'h' ∷ b'e' ∷ b'r' ∷ b'e' ∷ b'n' ∷ b'i' ∷ b't' ∷ b'y' ∷ b' ' ∷ b'>' ∷ b' ' ∷ []

abbrev pub cyan : ℕ
cyan = vga_color 0 3

abbrev pub set_current : Wm → Terminal → Wm
set_current w t = set_term w w.current_term t

-- `wm_blit(t)`
abbrev pub show : Wm → Wm
show w = blit_term w w.current_term

-- the prompt, where there is none
unfoldable pub give_prompt : Terminal → Terminal
give_prompt t =
    if t.prompt == 0 then record (term_print_color t prompt_text cyan) { prompt = 1 } else t

unfoldable pub switch_workspace : ℕ → Wm → Wm
switch_workspace idx w =
    let w' = wm_switch w (pos idx) in show (set_current w' (give_prompt (wm_current w')))

-- the workspace of a key with the control key
unfoldable pub workspace_of : ℕ → Option ℕ
workspace_of c =
    if leb b'1' c && leb c b'9'
    then some (c - b'1')
    else if c == b'0'
    then some 9
    else if c == b'q'
    then some 0
    else if c == b'w'
    then some 1
    else if c == b'e'
    then some 2
    else if c == b'r'
    then some 3
    else if c == b't'
    then some 4
    else if c == b'y'
    then some 5
    else if c == b'u'
    then some 6
    else if c == b'o'
    then some 7
    else if c == b'p'
    then some 8
    else if c == b'a'
    then some 9
    else none

-- the terminal after a key of the line, and before `execute` for the key that ends it
unfoldable pub line_key : Terminal → ℕ → Terminal
line_key t c =
    if c == 10
    then (let t' = term_putchar t 10 white in record t' { buf = write t'.buf t'.len 0 })
    else if c == 8
    then (if ltb 0 t.len then term_backspace (record t { len = t.len - 1 }) else t)
    else if leb 32 c && leb c 126
    then (if ltb t.len (term_buf_size - 1)
        then term_putchar (record t { buf = write t.buf t.len c; len = t.len + 1 }) c white
        else t)
    else t

-- what a key does: the code waits for the next one, or it executes the line of the terminal
pub data Turn : Type 0 where
  wait : Wm → Turn
  run_line : Wm → Turn

abbrev pub turn_of : Wm → ℕ → Turn
turn_of w c =
    let w' = set_current w (line_key (wm_current w) c) in
    if c == 10 then Turn.run_line w' else Turn.wait (show w')

unfoldable pub shell_key : Wm → ℕ → ℕ → Turn
shell_key w mods c =
    let workspace : Option ℕ = if bit_and mods mod_ctrl == 0 then none else workspace_of c in
    elim workspace [ some idx ↦ Turn.wait (switch_workspace idx w) | none ↦ turn_of w c ]

-- the terminal after `execute`
unfoldable pub end_line : Wm → Wm
end_line w = show (set_current w (record (wm_current w) { len = 0; prompt = 0 }))

-- The start of the outer loop.
unfoldable pub start_line : Wm → Wm
start_line w =
    if (wm_current w).prompt == 0 then show (set_current w (give_prompt (wm_current w))) else w

-- The line that `execute` gets: the bytes of the buffer before the zero.
abbrev pub text_of : ℕ → Bytes → ℕ → List ℕ
text_of zero b i = []
text_of (suc n) b i = let rest = text_of n b (i + 1) in if b i == 0 then [] else b i ∷ rest

abbrev pub typed_line : Terminal → List ℕ
typed_line t = text_of term_buf_size t.buf 0

-- the screens and lines after a key
abbrev pub after : Turn → Wm
after (Turn.wait w) = w
after (Turn.run_line w) = w
