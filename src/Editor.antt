-- ===== src/Editor.antt =====
-- The text editor of src/home/edit.c: the text with its lines and columns, the two edits, the view,
-- files, the command line and the keys. What `msg` shows is the datum of `Message` that was set.
-- Files go to the file system of Fs, by the system calls that read and write a whole file; `stack` is what
-- the kernel's stack holds when it extends a listing. The two loops of `scroll_fix` that move `top`
-- are on fuel; each other loop has a number of rounds that is known when it starts.
pub mod Lines
pub mod Edits
pub mod View
pub mod Command
pub mod Keys
pub mod Files
mod Tests
use lunaria_os.Base.{
  ℕ, zero, suc, ◌+◌, ◌-◌, ◌%◌, List, [], ◌∷◌, Bool, true, false, not, ◌&&◌, ◌||◌, Option, none,
  some, Bytes, write, each, copy, length, ltb, leb, ◌==◌, if◌then◌else◌,
}
use lunaria_os.Fs.{Fs, fs_read, fs_file, max_name}
use lunaria_os.Fs.Update.{fs_write}

abbrev pub buf_max : ℕ
buf_max = 65536

abbrev pub tab_w : ℕ
tab_w = 4

abbrev pub cmd_max : ℕ
cmd_max = 50

abbrev pub text_rows : ℕ
text_rows = 23

abbrev pub mirror_cols : ℕ
mirror_cols = 80

-- what `msg` holds
pub data Message : Type 0 where
  nothing buffer_full no_file_name name_too_long save_failed : Message
  modified_quit modified_save new_empty_buffer no_such_file commands : Message
  saved : List ℕ → ℕ → Message
  loaded : ℕ → Message

-- the statics of edit.c, with the disk
pub record Editor : Type 0 where
  pub buf : Bytes
  pub len : ℕ
  pub pos : ℕ
  pub top : ℕ
  pub offx : ℕ
  pub dirty : Bool
  pub cmd_mode : Bool
  pub cmd_len : ℕ
  pub quit : Bool
  pub cmd : Bytes
  pub fname : List ℕ
  pub msg : Message
  pub fs : Fs

abbrev pub set_msg : Editor → Message → Editor
set_msg e m = record e { msg = m }

unfoldable pub line_begin : Bytes → ℕ → ℕ
line_begin buf zero = zero
line_begin buf (suc p) = let rest = line_begin buf p in if buf p == 10 then suc p else rest

-- The loop of `line_end` at `p`, with `n` bytes up to the end of the text.
unfoldable pub line_end_in : ℕ → Bytes → ℕ → ℕ
line_end_in zero buf p = p
line_end_in (suc n) buf p = let rest = line_end_in n buf (p + 1) in if buf p == 10 then p else rest

abbrev pub line_end : Editor → ℕ → ℕ
line_end e p = line_end_in (e.len - p) e.buf p

-- the width of a byte in column `c`
abbrev pub width : ℕ → ℕ → ℕ
width c b = if b == 9 then tab_w - c % tab_w else 1

-- The loop of `col_of`: `n` bytes are left, from `i` on.
unfoldable pub columns : ℕ → Bytes → ℕ → ℕ → ℕ
columns zero buf i c = c
columns (suc n) buf i c = columns n buf (i + 1) (c + width c (buf i))

unfoldable pub col_of : Bytes → ℕ → ℕ
col_of buf p = columns (p - line_begin buf p) buf (line_begin buf p) 0

-- The loop of `pos_for_col`: the byte where it stops, and the column.
unfoldable pub walk : ℕ → Bytes → ℕ → ℕ → ℕ → ℕ × ℕ
walk zero buf target i c = (i, c)
walk (suc n) buf target i c =
    let rest = walk n buf target (i + 1) (c + width c (buf i)) in
    if ltb c target then rest else (i, c)

unfoldable pub pos_for_col : Editor → ℕ → ℕ → ℕ
pos_for_col e start target =
    let (i, c) = walk (line_end e start - start) e.buf target start 0 in
    if ltb target c && ltb start i then i - 1 else i

-- the loop of `line_of`
unfoldable pub count_lines : ℕ → Bytes → ℕ → ℕ → ℕ
count_lines zero buf i n = n
count_lines (suc k) buf i n = count_lines k buf (i + 1) (if buf i == 10 then n + 1 else n)

pub line_of : Bytes → ℕ → ℕ
line_of buf p = count_lines p buf 0 1

-- The first loop of `do_insert`: `k` bytes from `pos` on move up by `n`, the last first.
unfoldable pub shift_up : ℕ → ℕ → ℕ → Bytes → Bytes
shift_up n zero pos buf = buf
shift_up n (suc k) pos buf = shift_up n k pos (write buf (pos + k + n) (buf (pos + k)))

unfoldable pub do_insert : Editor → ℕ → ℕ → Editor
do_insert e c n = if leb buf_max (e.len + n) then set_msg e Message.buffer_full else record e {
  buf = each (λ i old. c) n e.pos (shift_up n (e.len - e.pos) e.pos e.buf);
  pos = e.pos + n;
  len = e.len + n;
  dirty = true;
}

unfoldable pub do_backspace : Editor → Editor
do_backspace e = if e.pos == 0 then e else record e {
  buf = copy (e.len - e.pos) (e.pos - 1) e.pos e.buf;
  pos = e.pos - 1;
  len = e.len - 1;
  dirty = true;
}

-- The first loop of `scroll_fix`.
unfoldable pub view_up : ℕ → Bytes → ℕ → ℕ → Option ℕ
view_up zero buf lb top = none
view_up (suc f) buf lb top =
    let rest = view_up f buf lb (if ltb 0 top then line_begin buf (top - 1) else 0) in
    if ltb lb top then rest else some top

-- The inner loop of `scroll_fix`: the start of the line `n` lines below `last`, or past the text.
unfoldable pub last_line : ℕ → Editor → ℕ → ℕ
last_line zero e last = last
last_line (suc n) e last =
    let rest = last_line n e (line_end e last + 1) in
    if leb e.len (line_end e last) then e.len + 1 else rest

-- The outer loop.
unfoldable pub view_down : ℕ → Editor → ℕ → ℕ → Option ℕ
view_down zero e lb top = none
view_down (suc f) e lb top =
    let rest = view_down f e lb (line_end e top + 1) in
    if leb lb (last_line (text_rows - 1) e top) then some top else rest

-- the end of `scroll_fix`, for the column `c`
unfoldable pub view_across : ℕ → ℕ → ℕ
view_across c offx =
    if ltb c offx then c else if leb (offx + mirror_cols) c then c - (mirror_cols - 1) else offx

unfoldable pub scroll_fix : ℕ → Editor → Option Editor
scroll_fix f e = elim (view_up f e.buf (line_begin e.buf e.pos) e.top) [
  | none ↦ none
  | some up ↦ elim (view_down f e (line_begin e.buf e.pos) up) [
    | none ↦ none
    | some down ↦ some (record e { top = down; offx = view_across (col_of e.buf e.pos) e.offx })
  ]
]

-- where `draw` puts the cursor: the row below the title, and the column
unfoldable pub cursor_row : Editor → ℕ
cursor_row e = count_lines (e.pos - e.top) e.buf e.top 0

unfoldable pub cursor_column : Editor → ℕ
cursor_column e = col_of e.buf e.pos - e.offx
