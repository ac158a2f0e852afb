-- ===== src/Fs/FdWrite.antt =====
-- The rest of the calls on open files in src/drivers/fs.c: writing, seeking and closing.
use lunaria_os.Base.{
  ℕ, zero, suc, ◌+◌, ◌-◌, ◌%◌, ◌^◌, Bool, true, false, ◌||◌, not, Option, none, some, Bytes, each,
  ltb, leb, ◌==◌, if◌then◌else◌,
}
use lunaria_os.Base.Int.{ℤ, pos, negsuc}
use lunaria_os.Fs.{Fs, copy_in}
use lunaria_os.Fs.Update.{fs_write}
use lunaria_os.Fs.Handles.{Files, Handle, set_handle, fd_lookup, fd_buf_size, fd_base, max_open}

-- `wbuf` with the gap behind the old end zeroed, up to the offset
abbrev pub fill_gap : Bytes → ℕ → ℕ → Bytes
fill_gap wbuf wlen offset =
    if ltb wlen offset then each (λ i old. 0) (offset - wlen) wlen wbuf else wbuf

unfoldable pub write_handle : Files → ℕ → Bytes → ℕ → Files × ℤ
write_handle t i buf n =
    let h = t.handles i in
    let end = (h.offset + n) % 2 ^ 32 in
    let longer = ltb h.wlen end in
    let wbuf = if longer then fill_gap t.wbuf h.wlen h.offset else t.wbuf in
    let written : Files =
      record (set_handle t i
        (record h { wlen = if longer then end else h.wlen; offset = end; dirty = true })) {
          wbuf = copy_in wbuf h.offset buf n;
        } in
    if not h.writable
    then (t, negsuc 0)
    else if ltb fd_buf_size n || ltb (fd_buf_size - n) h.offset
    then (t, negsuc 0)
    else (written, pos n)

unfoldable pub fs_write_fd : Files → ℤ → Bytes → ℕ → Files × ℤ
fs_write_fd t fd buf n = elim (fd_lookup t fd) [
  | none ↦ (t, negsuc 0)
  | some i ↦ write_handle t i buf n
]

-- the place that `fs_seek` counts from
unfoldable pub seek_base : Handle → ℕ → Option ℕ
seek_base h whence =
    if whence == 0
    then some 0
    else if whence == 1
    then some h.offset
    else if whence == 2
    then some (if h.writable then h.wlen else h.size)
    else none

-- The sum is an `int`, negative when its pattern is 2 ^ 31 or more.
unfoldable pub seek_handle : Files → ℕ → ℕ → Option ℕ → Files × ℤ
seek_handle t i off none = (t, negsuc 0)
seek_handle t i off (some base) =
    let place = (base + off) % 2 ^ 32 in
    if leb (2 ^ 31) place
    then (t, negsuc 0)
    else (set_handle t i (record (t.handles i) { offset = place }), pos place)

unfoldable pub fs_seek : Files → ℤ → ℕ → ℕ → Files × ℤ
fs_seek t fd off whence = elim (fd_lookup t fd) [
  | none ↦ (t, negsuc 0)
  | some i ↦ seek_handle t i off (seek_base (t.handles i) whence)
]

-- `fs_close` of handle `i`, with what `fs_write` answers for a writable one
unfoldable pub close_with : Files → ℕ → Fs × Bool → Files × Bool
close_with t i (fs, rc) =
    let h = t.handles i in
    let closed = set_handle t i (record h { used = false }) in
    if h.writable then (record closed { fs = fs }, rc) else (closed, true)

unfoldable pub close_handle : Bytes → Files → ℕ → Files × Bool
close_handle stack t i =
    let h = t.handles i in close_with t i (fs_write stack t.fs h.name h.type t.wbuf h.wlen)

-- The Boolean is whether the result is 0, else -1.
unfoldable pub fs_close : Bytes → Files → ℤ → Files × Bool
fs_close stack t fd = elim (fd_lookup t fd) [ none ↦ (t, false) | some i ↦ close_handle stack t i ]

-- The loop of `fs_close_all`: `n` handles from number `i` on.
unfoldable pub close_loop : Bytes → ℕ → ℕ → Files → Files
close_loop stack i zero t = t
close_loop stack i (suc n) t =
    close_loop stack (i + 1) n
      (if (t.handles i).used then (fs_close stack t (pos (fd_base + i))).0 else t)

pub fs_close_all : Bytes → Files → Files
fs_close_all stack t = close_loop stack 0 max_open t
