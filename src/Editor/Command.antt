-- ===== src/Editor/Command.antt =====
-- Files and the command line of the editor: `load_into`, `save_file` and `run_command`. That the command is
-- trimmed in its buffer is left out: the buffer is written anew before it is read again.
use lunaria_os.Base.{
  ℕ, zero, suc, ◌+◌, ◌-◌, List, [], ◌∷◌, Bool, true, false, ◌&&◌, Option, none, some, Bytes, length,
  leb, ◌==◌, if◌then◌else◌,
}
use lunaria_os.Base.Int.{ℤ, pos, negsuc}
use lunaria_os.Fs.{Fs, fs_read, fs_file, max_name}
use lunaria_os.Fs.Update.{fs_write, is_empty}
use lunaria_os.Editor.{
  Editor, buf_max, cmd_max, set_msg, no_file_name, name_too_long, save_failed, modified_quit,
  modified_save, new_empty_buffer, no_such_file, commands, saved, loaded,
}

-- `load_into` with what `sys_read_file` did: it has put bytes into the buffer also where it failed. The
-- answer `none` is -1.
unfoldable pub text_read : Editor → List ℕ → Bytes × ℤ → Editor × Option ℕ
text_read e name (buf, negsuc n) = (record e { buf = buf }, none)
text_read e name (buf, pos n) = (
  record e { buf = buf; len = n; pos = 0; top = 0; offx = 0; dirty = false; fname = name },
  some n,
)

unfoldable pub load_into : Editor → List ℕ → Editor × Option ℕ
load_into e name = text_read e name (fs_read e.fs name e.buf (buf_max - 1))

-- the end of `save_file`, with what `sys_write_file` did
unfoldable pub save_done : Editor → List ℕ → Fs × Bool → Editor × Bool
save_done e name (fs, true) =
    (record e { fs = fs; fname = name; dirty = false; msg = saved name e.len }, true)
save_done e name (fs, false) = (record e { fs = fs; msg = save_failed }, false)

-- `stack` is what the kernel's stack holds.
unfoldable pub save_file : Bytes → Editor → List ℕ → Editor × Bool
save_file stack e name =
    if is_empty name
    then (set_msg e no_file_name, false)
    else if leb max_name (length name)
    then (set_msg e name_too_long, false)
    else save_done e name (fs_write stack e.fs name fs_file e.buf e.len)

-- The command as a text: the bytes of `cmd` before the zero.
abbrev pub text_of : ℕ → Bytes → ℕ → List ℕ
text_of zero b i = []
text_of (suc n) b i = let rest = text_of n b (i + 1) in if b i == 0 then [] else b i ∷ rest

abbrev pub skip_spaces : List ℕ → List ℕ
skip_spaces [] = []
skip_spaces (c ∷ cs) = if c == 32 then skip_spaces cs else c ∷ cs

-- without the spaces at the end
abbrev pub trim_end : List ℕ → List ℕ
trim_end [] = []
trim_end (c ∷ cs) = let rest = trim_end cs in if (c == 32) && is_empty rest then [] else c ∷ rest

-- `strcmp(a, b) == 0`
abbrev pub same_text : List ℕ → List ℕ → Bool
same_text [] [] = true
same_text [] (y ∷ ys) = false
same_text (x ∷ xs) [] = false
same_text (x ∷ xs) (y ∷ ys) = (x == y) && same_text xs ys

-- what follows the command letter `c` and a space
abbrev pub argument : ℕ → List ℕ → Option (List ℕ)
argument c (x ∷ y ∷ ys) = if (x == c) && (y == 32) then some (skip_spaces ys) else none
argument c xs = none

abbrev pub quit_if : Editor × Bool → Editor
quit_if (e, true) = record e { quit = true }
quit_if (e, false) = e

-- what the command `e` does with the answer of `load_into`
unfoldable pub opened : Editor × Option ℕ → Editor
opened (e, none) = set_msg e no_such_file
opened (e, some n) = set_msg e (loaded n)

unfoldable pub edit_file : Editor → List ℕ → Editor
edit_file e name =
    if e.dirty
    then set_msg e modified_save
    else if leb max_name (length name)
    then set_msg e name_too_long
    else opened (load_into e name)

-- the commands `e` and `w` with their argument, and what is no command
unfoldable pub with_argument : Bytes → Editor → Option (List ℕ) → Option (List ℕ) → Editor
with_argument stack e (some name) w = edit_file e name
with_argument stack e none (some name) = (save_file stack e name).0
with_argument stack e none none = set_msg e commands

-- `run_command` for the command without its outer spaces
unfoldable pub run_text : Bytes → Editor → List ℕ → Editor
run_text stack e c =
    if is_empty c
    then e
    else if same_text c (b'q' ∷ [])
    then (if e.dirty then set_msg e modified_quit else record e { quit = true })
    else if same_text c (b'q' ∷ b'!' ∷ [])
    then record e { quit = true }
    else if same_text c (b'w' ∷ [])
    then (save_file stack e e.fname).0
    else if same_text c (b'w' ∷ b'q' ∷ [])
    then quit_if (save_file stack e e.fname)
    else if same_text c (b'n' ∷ [])
    then (if e.dirty then set_msg e modified_save else record e {
      len = 0;
      pos = 0;
      top = 0;
      offx = 0;
      dirty = false;
      fname = [];
      msg = new_empty_buffer;
    })
    else with_argument stack e (argument b'e' c) (argument b'w' c)

unfoldable pub run_command : Bytes → Editor → Editor
run_command stack e = run_text stack e (trim_end (skip_spaces (text_of (cmd_max + 1) e.cmd 0)))
