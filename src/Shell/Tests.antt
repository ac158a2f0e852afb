-- ===== src/Shell/Tests.antt =====
-- The shell on short lines.
use lunaria_os.Base.{Bytes, ℕ, ◌≡◌, refl, List, [], ◌∷◌, true, take, arith}
use lunaria_os.Terminal.{Terminal}
use lunaria_os.Wm.{Wm, wm_current}
use lunaria_os.Shell.{
  parse_line, parse_words, write_file, call_command, execute, execute_words, split_at_arrow,
  redirect, redirected, spaced_words, unescape, find_command,
}
use lunaria_os.Shell.Content.{fits, execute_fits}
use lunaria_os.Shell.Args.{build_user_args}
use lunaria_os.Shell.ArgsRead.{IsEntry, build_user_args-IsEntry}
use lunaria_os.Shell.Prompt.{shell_key, after, end_line, start_line, Turn, typed_line}
use lunaria_os.Shell.Lines.{AreLines, turns-AreLines}
use lunaria_os.Shell.Typed.{type_keys, shell_key-type_keys}

-- rm x > f
abbrev rm_line : List ℕ
rm_line = b'r' ∷ b'm' ∷ b' ' ∷ b'x' ∷ b' ' ∷ b'>' ∷ b' ' ∷ b'f' ∷ []

-- With a redirection the command of the line is not run: what stands behind it is the file's text.
redirected_rm : execute rm_line ≡ write_file (b'f' ∷ []) (b'x' ∷ [])
unfolding execute execute_words parse_line parse_words split_at_arrow redirect redirected
    spaced_words unescape
redirected_rm = refl

-- echo a\nb > f
escaped :
    execute (b'e' ∷ b' ' ∷ b'a' ∷ b'\\' ∷ b'n' ∷ b'b' ∷ b' ' ∷ b'>' ∷ b' ' ∷ b'f' ∷ [])
    ≡ write_file (b'f' ∷ []) (b'a' ∷ 10 ∷ b'b' ∷ [])
unfolding execute execute_words parse_line parse_words split_at_arrow redirect redirected
    spaced_words unescape
escaped = refl

ls_home :
    execute (b'l' ∷ b's' ∷ b' ' ∷ b'h' ∷ [])
    ≡ call_command 6 ((b'l' ∷ b's' ∷ []) ∷ (b'h' ∷ []) ∷ [])
unfolding execute execute_words parse_line parse_words split_at_arrow find_command
ls_home = refl

execute_fits_example : fits (execute rm_line) ≡ true
execute_fits_example = execute_fits rm_line (omega arith)

build_user_args-IsEntry_example :
    IsEntry
      (λ j. 0)
      (take 16 ((b'l' ∷ b's' ∷ []) ∷ (b'h' ∷ []) ∷ []))
      (build_user_args ((b'l' ∷ b's' ∷ []) ∷ (b'h' ∷ []) ∷ []) (λ j. 0)).0
      (build_user_args ((b'l' ∷ b's' ∷ []) ∷ (b'h' ∷ []) ∷ []) (λ j. 0)).1
build_user_args-IsEntry_example =
    build_user_args-IsEntry ((b'l' ∷ b's' ∷ []) ∷ (b'h' ∷ []) ∷ []) (λ j. 0) (omega arith)

abbrev blank_terminal : Terminal
blank_terminal = record {
  cursor_x = 0;
  cursor_y = 0;
  cells = λ j. 0;
  color = 15;
  buf = λ j. 0;
  len = 0;
  prompt = 0;
}

abbrev screens : Wm
screens = record { terms = λ i. blank_terminal; current_term = 0; vga = λ j. 0 }

abbrev screen_bytes : ℕ → Bytes
screen_bytes i = blank_terminal.buf

screens-AreLines : AreLines screen_bytes screens
screens-AreLines = record {
  current = omega arith;
  lines = λ i lt. record {
    fits = omega arith;
    inside = λ j out. refl;
    printable = λ j lt'. absurd (omega (arith, lt'));
  };
}

turns-AreLines_example :
    AreLines screen_bytes (after (shell_key screens 2 b'q'))
    × AreLines screen_bytes (end_line screens)
    × AreLines screen_bytes (start_line screens)
turns-AreLines_example = turns-AreLines screen_bytes screens 2 b'q' screens-AreLines

shell_key-type_keys_example :
    (w' : Wm) × (shell_key (type_keys (b'l' ∷ b's' ∷ []) screens) 0 10 ≡ Turn.run_line w')
    × (typed_line (wm_current w') ≡ b'l' ∷ b's' ∷ [])
unfolding wm_current
shell_key-type_keys_example = shell_key-type_keys screens (b'l' ∷ b's' ∷ []) refl (omega arith) refl
