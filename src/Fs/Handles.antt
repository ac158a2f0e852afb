-- ===== src/Fs/Handles.antt =====
-- The open files of src/drivers/fs.c: eight handles, and the one buffer of 64 KiB that a writable handle
-- owns. A file descriptor is an `int`; a handle is named by its index here. Buffers are arrays from
-- the pointer's start, and the `off` of `fs_seek` is the pattern of an `int`, below 2 ^ 32.
use lunaria_os.Base.{
  ℕ, zero, suc, ◌+◌, ◌-◌, ◌/◌, ◌%◌, ◌^◌, List, Bool, true, false, not, ◌&&◌, ◌||◌, Option, none,
  some, bit_and, Bytes, length, ltb, leb, ◌==◌, if◌then◌else◌,
}
use lunaria_os.Base.Int.{ℤ, pos, negsuc}
use lunaria_os.Fs.{Fs, FileEntry, fs_find, fs_read, read_sector, copy_in, max_name, fs_dir, fs_file}

abbrev pub max_open : ℕ
max_open = 8

abbrev pub fd_base : ℕ
fd_base = 3

abbrev pub fd_buf_size : ℕ
fd_buf_size = 65536

-- `struct fs_handle`
pub record Handle : Type 0 where
  pub used : Bool
  pub writable : Bool
  pub dirty : Bool
  pub type : ℕ
  pub name : List ℕ
  pub lba : ℕ
  pub size : ℕ
  pub wlen : ℕ
  pub offset : ℕ

-- the statics: the disk with its superblock, `handles` and `wbuf`
pub record Files : Type 0 where
  pub fs : Fs
  pub handles : ℕ → Handle
  pub wbuf : Bytes

abbrev pub set_handle : Files → ℕ → Handle → Files
set_handle t i h = record t { handles = λ k. if k == i then h else t.handles k }

unfoldable pub fd_lookup : Files → ℤ → Option ℕ
fd_lookup t (pos fd) =
    let i = fd - fd_base in
    if leb fd_base fd && ltb i max_open && (t.handles i).used then some i else none
fd_lookup t (negsuc fd) = none

-- The first loop of `fs_open`: the first unused handle, of `n` from number `i` on.
unfoldable pub free_handle : Files → ℕ → ℕ → Option ℕ
free_handle t i zero = none
free_handle t i (suc n) =
    let rest = free_handle t (i + 1) n in if not (t.handles i).used then some i else rest

-- The second loop: whether another handle is in use and writable.
unfoldable pub other_writable : Files → ℕ → ℕ → ℕ → Bool
other_writable t h i zero = false
other_writable t h i (suc n) =
    not (i == h) && (t.handles i).used && (t.handles i).writable || other_writable t h (i + 1) n

abbrev pub has_flag : ℕ → ℕ → Bool
has_flag flags bit = not (bit_and flags bit == 0)

-- the handle after `memset` and the first assignments
abbrev pub fresh_handle : List ℕ → Bool → Handle
fresh_handle name writable = record {
  used = true;
  writable = writable;
  dirty = false;
  type = 0;
  name = name;
  lba = 0;
  size = 0;
  wlen = 0;
  offset = 0;
}

-- `fs_open` for reading, in handle `i`
unfoldable pub open_read : Files → List ℕ → Option FileEntry → ℕ → Files × ℤ
open_read t name none i = (set_handle t i (fresh_handle name false), pos (fd_base + i))
open_read t name (some e) i = (
  set_handle t i (record (fresh_handle name false) { type = e.type; lba = e.lba; size = e.size }),
  pos (fd_base + i),
)

-- `fs_open` for writing, in handle `i`; `loaded` is the length of what `wbuf` got, if that went well
unfoldable pub open_write : Files → List ℕ → ℕ → ℕ → Option (Bytes × ℕ) → Files × ℤ
open_write t name flags i none =
    (set_handle t i (record (fresh_handle name true) { used = false; type = fs_file }), negsuc 0)
open_write t name flags i (some (buf, len)) = (
  record (set_handle t i (record (fresh_handle name true) {
    type = fs_file;
    wlen = len;
    offset = if has_flag flags 0x20 then len else 0;
  })) { wbuf = buf },
  pos (fd_base + i),
)

-- the test of `fs_open` behind `fs_read`
abbrev pub file_loaded : ℕ → Bytes × ℤ → Option (Bytes × ℕ)
file_loaded size (buf, negsuc n) = none
file_loaded size (buf, pos n) = some (buf, size)

-- what `fs_open` loads into `wbuf`: the file, unless it is new or truncated
unfoldable pub load : Files → List ℕ → ℕ → Option FileEntry → Option (Bytes × ℕ)
load t name flags none = some (t.wbuf, 0)
load t name flags (some e) =
    let read = file_loaded e.size (fs_read t.fs name t.wbuf fd_buf_size) in
    if has_flag flags 0x10 then some (t.wbuf, 0) else if ltb fd_buf_size e.size then none else read

-- `fs_open` behind its first tests, with the handle that the loop found
unfoldable pub open_in : Files → List ℕ → ℕ → Option FileEntry → Option ℕ → Files × ℤ
open_in t name flags found none = (t, negsuc 0)
open_in t name flags found (some i) =
    if not (has_flag flags 0x6)
    then open_read t name found i
    else if other_writable t i 0 max_open
    then (set_handle t i (record (fresh_handle name true) { used = false }), negsuc 0)
    else open_write t name flags i (load t name flags found)

unfoldable pub is_directory : Option FileEntry → Bool
is_directory none = false
is_directory (some e) = e.type == fs_dir

unfoldable pub is_missing : Option FileEntry → Bool
is_missing none = true
is_missing (some e) = false

unfoldable pub fs_open : Files → List ℕ → ℕ → Files × ℤ
fs_open t name flags =
    let found = fs_find t.fs name in
    if leb max_name (length name)
    then (t, negsuc 0)
    else if is_missing found && not (has_flag flags 0x8)
    then (t, negsuc 0)
    else if is_directory found
    then (t, negsuc 0)
    else open_in t name flags found (free_handle t 0 max_open)

-- The loop of `fs_read_fd` with a round of fuel for each sector: `done` bytes of `n` are read. The
-- Boolean says whether no sector failed.
unfoldable pub fd_loop : ℕ → Fs → ℕ → ℕ → ℕ → ℕ → Bytes → Option (Bytes × ℕ × Bool)
fd_loop zero fs lba offset n done buf = if leb n done then some (buf, done, true) else none
fd_loop (suc f) fs lba offset n done buf =
    let place = (offset + done) % 2 ^ 32 in
    let start = place % 512 in
    let taken = if ltb (n - done) (512 - start) then n - done else 512 - start in
    let rest : Option (Bytes × ℕ × Bool) = elim (read_sector fs (lba + place / 512)) [
      | none ↦ some (buf, done, false)
      | some sec ↦
          fd_loop f fs lba offset n (done + taken) (copy_in buf done (λ j. sec (start + j)) taken)
    ] in
    if leb n done then some (buf, done, true) else rest

-- what is left of the file, at most `n`
abbrev pub available : ℕ → ℕ → ℕ → ℕ
available offset len n =
    let avail = if ltb offset len then len - offset else 0 in if ltb avail n then avail else n

-- `fs_read_fd` with the answer of the loop
unfoldable pub read_done : Files → ℕ → Bytes × ℕ × Bool → Files × Bytes × ℤ
read_done t i (buf, done, true) = (
  set_handle t i (record (t.handles i) { offset = ((t.handles i).offset + done) % 2 ^ 32 }),
  buf,
  pos done,
)
read_done t i (buf, done, false) = (t, buf, if done == 0 then negsuc 0 else pos done)

unfoldable pub read_handle : Files → ℕ → Bytes → ℕ → Option (Files × Bytes × ℤ)
read_handle t i buf n =
    let h = t.handles i in
    let from_wbuf = available h.offset h.wlen n in
    let from_disk = available h.offset h.size n in
    let streamed : Option (Files × Bytes × ℤ) =
      elim (fd_loop (from_disk / 512 + 2) t.fs h.lba h.offset from_disk 0 buf) [
        | none ↦ none
        | some r ↦ some (read_done t i r)
      ] in
    if h.writable
    then some (
      set_handle t i (record h { offset = (h.offset + from_wbuf) % 2 ^ 32 }),
      copy_in buf 0 (λ j. t.wbuf (h.offset + j)) from_wbuf,
      pos from_wbuf,
    )
    else if from_disk == 0
    then some (t, buf, pos 0)
    else streamed

-- `none` would be a loop that does not end.
unfoldable pub fs_read_fd : Files → ℤ → Bytes → ℕ → Option (Files × Bytes × ℤ)
fs_read_fd t fd buf n = elim (fd_lookup t fd) [
  | none ↦ some (t, buf, negsuc 0)
  | some i ↦ read_handle t i buf n
]
