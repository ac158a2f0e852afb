-- ===== src/Shell/Commands.antt =====
-- What a line of the shell does to the disk and to the current terminal: the end of `execute`, and the
-- commands that print or work on files.
use lunaria_os.Base.{ℕ, List, [], ◌∷◌, Bool, true, false, Option, none, some, Bytes, length, get_or}
use lunaria_os.Fs.{Fs, fs_delete, fs_file}
use lunaria_os.Fs.Update.{fs_write, fs_mkdir}
use lunaria_os.Terminal.{Terminal, term_print_color, term_clear, white, vga_color}
use lunaria_os.Shell.{Command, no_words, usage, write_file, call_command, not_found}

abbrev pub red : ℕ
red = vga_color 0 4

abbrev pub green : ℕ
green = vga_color 0 2

-- the disk and the terminal
abbrev pub World : Type 0
World = Fs × Terminal

abbrev pub say : World → List ℕ → ℕ → World
say (fs, t) s color = (fs, term_print_color t s color)

abbrev pub space : List ℕ
space = b' ' ∷ []

abbrev pub new_line : List ℕ
new_line = 10 ∷ []

-- "wrote "
abbrev pub wrote : List ℕ
wrote = b'w' ∷ b'r' ∷ b'o' ∷ b't' ∷ b'e' ∷ b' ' ∷ []

-- "write failed\n"
abbrev pub write_failed : List ℕ
write_failed =
    b'w' ∷ b'r' ∷ b'i' ∷ b't' ∷ b'e' ∷ b' ' ∷ b'f' ∷ b'a' ∷ b'i' ∷ b'l' ∷ b'e' ∷ b'd' ∷ 10 ∷ []

-- "usage: <cmd> ... > <file>\n"
abbrev pub redirect_usage : List ℕ
redirect_usage =
    b'u' ∷ b's' ∷ b'a' ∷ b'g' ∷ b'e' ∷ b':' ∷ b' ' ∷ b'<' ∷ b'c' ∷ b'm' ∷ b'd' ∷ b'>' ∷ b' ' ∷ b'.'
    ∷ b'.' ∷ b'.' ∷ b' ' ∷ b'>' ∷ b' ' ∷ b'<' ∷ b'f' ∷ b'i' ∷ b'l' ∷ b'e' ∷ b'>' ∷ 10 ∷ []

-- ": command not found\n"
abbrev pub no_such_command : List ℕ
no_such_command =
    b':' ∷ b' ' ∷ b'c' ∷ b'o' ∷ b'm' ∷ b'm' ∷ b'a' ∷ b'n' ∷ b'd' ∷ b' ' ∷ b'n' ∷ b'o' ∷ b't' ∷ b' '
    ∷ b'f' ∷ b'o' ∷ b'u' ∷ b'n' ∷ b'd' ∷ 10 ∷ []

-- the answer of `fs_write` to a redirection
unfoldable pub report_write : Terminal → List ℕ → Fs × Bool → World
report_write t name (fs, true) = say (say (say (fs, t) wrote green) name green) new_line green
report_write t name (fs, false) = say (fs, t) write_failed red

-- `stack` is what the kernel's stack holds; `commands` are the functions of the table.
unfoldable pub perform : Bytes → (ℕ → List (List ℕ) → World → World) → World → Command → World
perform stack commands w no_words = w
perform stack commands w usage = say w redirect_usage red
perform stack commands (fs, t) (write_file name text) =
    report_write t name (fs_write stack fs name fs_file (λ j. get_or text j 0) (length text))
perform stack commands w (call_command i argv) = commands i argv w
perform stack commands w (not_found name) = say (say w name white) no_such_command red

-- The words of `echo` after the first, each behind a space.
unfoldable pub echo_rest : World → List (List ℕ) → World
echo_rest w [] = w
echo_rest w (a ∷ more) = echo_rest (say (say w space white) a white) more

unfoldable pub cmd_echo : List (List ℕ) → World → World
cmd_echo (name ∷ a ∷ more) w = say (echo_rest (say w a white) more) new_line white
cmd_echo argv w = w

unfoldable pub cmd_clear : List (List ℕ) → World → World
cmd_clear argv (fs, t) = (fs, record (term_clear t) { prompt = 0 })

-- "mkdir: failed:"
abbrev pub mkdir_failed : List ℕ
mkdir_failed =
    b'm' ∷ b'k' ∷ b'd' ∷ b'i' ∷ b'r' ∷ b':' ∷ b' ' ∷ b'f' ∷ b'a' ∷ b'i' ∷ b'l' ∷ b'e' ∷ b'd' ∷ b':'
    ∷ []

unfoldable pub report_mkdir : Terminal → List ℕ → Fs × Bool → World
report_mkdir t name (fs, true) = (fs, t)
report_mkdir t name (fs, false) = say (say (say (fs, t) mkdir_failed red) name red) new_line red

unfoldable pub make_directories : Bytes → World → List (List ℕ) → World
make_directories stack w [] = w
make_directories stack (fs, t) (a ∷ more) =
    make_directories stack (report_mkdir t a (fs_mkdir stack fs a)) more

unfoldable pub cmd_mkdir : Bytes → List (List ℕ) → World → World
cmd_mkdir stack (name ∷ more) w = make_directories stack w more
cmd_mkdir stack [] w = w

-- "usage: rm <file>\n"
abbrev pub rm_usage : List ℕ
rm_usage =
    b'u' ∷ b's' ∷ b'a' ∷ b'g' ∷ b'e' ∷ b':' ∷ b' ' ∷ b'r' ∷ b'm' ∷ b' ' ∷ b'<' ∷ b'f' ∷ b'i' ∷ b'l'
    ∷ b'e' ∷ b'>' ∷ 10 ∷ []

-- "rm: not found\n"
abbrev pub rm_failed : List ℕ
rm_failed =
    b'r' ∷ b'm' ∷ b':' ∷ b' ' ∷ b'n' ∷ b'o' ∷ b't' ∷ b' ' ∷ b'f' ∷ b'o' ∷ b'u' ∷ b'n' ∷ b'd' ∷ 10
    ∷ []

unfoldable pub report_rm : World → Option Fs → World
report_rm w none = say w rm_failed red
report_rm (fs, t) (some fs') = (fs', t)

unfoldable pub cmd_rm : List (List ℕ) → World → World
cmd_rm (name ∷ a ∷ more) (fs, t) = report_rm (fs, t) (fs_delete fs a)
cmd_rm argv w = say w rm_usage red
