-- ===== src/Shell.antt =====
-- The shell of src/kernel/shell.c: how a line becomes words, what a redirection writes, and which
-- call a line makes. A line is the list of its bytes before the zero. `Args` builds a program's
-- arguments, `Prompt` edits the line.
pub mod Words
pub mod Content
pub mod Args
pub mod ArgsRead
pub mod Commands
pub mod Prompt
pub mod Lines
pub mod Typed
mod Tests
use lunaria_os.Base.{
  ℕ, zero, suc, ◌+◌, ◌-◌, List, [], ◌∷◌, ◌++◌, Bool, true, false, not, ◌&&◌, ◌||◌, Option, none,
  some, Bytes, write, length, ltb, leb, ◌==◌, if◌then◌else◌,
}
use lunaria_os.Fs.Update.{is_empty}

abbrev pub cmd_buf_size : ℕ
cmd_buf_size = 128

abbrev pub max_args : ℕ
max_args = 16

abbrev pub skip_spaces : List ℕ → List ℕ
skip_spaces [] = []
skip_spaces (c ∷ cs) = if c == 32 then skip_spaces cs else c ∷ cs

-- a word, up to a space
abbrev pub word : List ℕ → List ℕ
word [] = []
word (c ∷ cs) = if c == 32 then [] else c ∷ word cs

-- what follows a word and the space that ends it
abbrev pub after_word : List ℕ → List ℕ
after_word [] = []
after_word (c ∷ cs) = if c == 32 then cs else after_word cs

-- `parse_line`, with room for `n` more words
unfoldable pub parse_words : ℕ → List ℕ → List (List ℕ)
parse_words zero line = []
parse_words (suc n) line =
    let rest = parse_words n (after_word (skip_spaces line)) in
    if is_empty (skip_spaces line) then [] else word (skip_spaces line) ∷ rest

pub parse_line : List ℕ → List (List ℕ)
parse_line line = parse_words max_args line

-- what an escape stands for
abbrev pub escape : ℕ → List ℕ
escape c =
    if c == b'n'
    then 10 ∷ []
    else if c == b't'
    then 9 ∷ []
    else if c == b'\\'
    then b'\\' ∷ []
    else b'\\' ∷ c ∷ []

-- The inner loop of `execute` that copies a word into `redirected`.
unfoldable pub unescape : List ℕ → List ℕ
unescape [] = []
unescape (c ∷ []) = c ∷ []
unescape (c ∷ d ∷ cs) =
    let escaped = escape d ++ unescape cs in
    let plain = c ∷ unescape (d ∷ cs) in if c == b'\\' then escaped else plain

-- The words of `redirected` after the first, each behind a space.
unfoldable pub spaced_words : List (List ℕ) → List ℕ
spaced_words [] = []
spaced_words (w ∷ ws) = 32 ∷ (unescape w ++ spaced_words ws)

unfoldable pub redirected : List (List ℕ) → List ℕ
redirected [] = []
redirected (w ∷ ws) = unescape w ++ spaced_words ws

-- `strcmp(a, b) == 0`
abbrev pub same_text : List ℕ → List ℕ → Bool
same_text [] [] = true
same_text [] (y ∷ ys) = false
same_text (x ∷ xs) [] = false
same_text (x ∷ xs) (y ∷ ys) = (x == y) && same_text xs ys

-- The words before the first ">", and those after it, if there is one.
unfoldable pub split_at_arrow : List (List ℕ) → Option (List (List ℕ) × List (List ℕ))
split_at_arrow [] = none
split_at_arrow (w ∷ ws) =
    let rest : Option (List (List ℕ) × List (List ℕ)) = elim (split_at_arrow ws) [
      | none ↦ none
      | some (before, after) ↦ some (w ∷ before, after)
    ] in
    if same_text w (b'>' ∷ []) then some ([], ws) else rest

-- what `execute` does: nothing, a call of `fs_write`, a call of a command, or a message
pub data Command : Type 0 where
  no_words usage : Command
  write_file : List ℕ → List ℕ → Command
  call_command : ℕ → List (List ℕ) → Command
  not_found : List ℕ → Command

-- the loop over the table `commands`, whose names are `names`, from the index `i` on
unfoldable pub find_command : List (List ℕ) → ℕ → List (List ℕ) → List ℕ → Command
find_command [] i argv name = not_found name
find_command (c ∷ cs) i argv name =
    let rest = find_command cs (i + 1) argv name in
    if same_text name c then call_command i argv else rest

-- the names of the table `commands`
abbrev pub names : List (List ℕ)
names =
    (b'h' ∷ b'e' ∷ b'l' ∷ b'p' ∷ [])
    ∷ (b'c' ∷ b'l' ∷ b'e' ∷ b'a' ∷ b'r' ∷ [])
    ∷ (b'e' ∷ b'c' ∷ b'h' ∷ b'o' ∷ [])
    ∷ (b'r' ∷ b'e' ∷ b'a' ∷ b'd' ∷ [])
    ∷ (b'e' ∷ b'x' ∷ b'i' ∷ b't' ∷ [])
    ∷ (b'h' ∷ b'a' ∷ b'l' ∷ b't' ∷ [])
    ∷ (b'l' ∷ b's' ∷ [])
    ∷ (b'c' ∷ b'a' ∷ b't' ∷ [])
    ∷ (b'r' ∷ b'm' ∷ [])
    ∷ (b'm' ∷ b'k' ∷ b'd' ∷ b'i' ∷ b'r' ∷ [])
    ∷ (b'r' ∷ b'u' ∷ b'n' ∷ [])
    ∷ (b'u' ∷ b'p' ∷ b't' ∷ b'i' ∷ b'm' ∷ b'e' ∷ [])
    ∷ (b's' ∷ b'l' ∷ b'e' ∷ b'e' ∷ b'p' ∷ [])
    ∷ (b'b' ∷ b'a' ∷ b'n' ∷ b'n' ∷ b'e' ∷ b'r' ∷ [])
    ∷ (b'f' ∷ b'r' ∷ b'e' ∷ b'e' ∷ [])
    ∷ []

-- the redirection of `execute`, to the first word of `after`
unfoldable pub redirect : List (List ℕ) → List (List ℕ) → Command
redirect before [] = usage
redirect before (name ∷ after) = write_file name (redirected before)

-- `execute` of the words of a line
unfoldable pub execute_words : List (List ℕ) → Command
execute_words [] = no_words
execute_words (w ∷ ws) = elim (split_at_arrow ws) [
  | some (before, after) ↦ redirect before after
  | none ↦ find_command names 0 (w ∷ ws) w
]

unfoldable pub execute : List ℕ → Command
execute line = execute_words (parse_line line)
