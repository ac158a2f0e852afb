-- ===== src/Fs/FdBuffer.antt =====
-- The buffer of a writable handle: writes stay inside it, and what was written reads back.
use lunaria_os.Base.{
  ℕ, ◌+◌, ◌-◌, ◌%◌, ◌^◌, ◌<◌, ◌≤◌, ◌≡◌, ap, true, some, Bytes, each_lem, in_range, ltb,
  if◌then◌else◌, arith,
}
use lunaria_os.Base.Int.{ℤ, pos}
use lunaria_os.Fs.{copy_in}
use lunaria_os.Fs.Disk.{copy_in_lem}
use lunaria_os.Fs.Handles.{Files, set_handle, fd_lookup, fs_read_fd, read_handle, available}
use lunaria_os.Fs.FdWrite.{write_handle, fs_write_fd, seek_base, seek_handle, fs_seek, fill_gap}

-- A handle that is open for writing, with its bytes inside the buffer.
pub record IsWriter (t : Files) (i : ℕ) : Type 0 where
  pub index : i < 8
  pub in_use : (t.handles i).used ≡ true
  pub writes : (t.handles i).writable ≡ true
  pub bounded : (t.handles i).wlen ≤ 65536

fd_lookup_lem :
    (t : Files) (i : ℕ) → i < 8 → (t.handles i).used ≡ true → fd_lookup t (pos (3 + i)) ≡ some i
unfolding fd_lookup
fd_lookup_lem t i lt used =
    ground (arith, lt, used, ap (λ (k : ℕ). (t.handles k).used) (index i), index i)
  where
    index : (i : ℕ) → 3 + i - 3 ≡ i
    index i = omega arith

-- What `fs_write_fd` of `n` bytes at a writer's offset leaves, seen at the place `j` of the buffer.
pub record Stored (t : Files) (i : ℕ) (buf : Bytes) (n j : ℕ) (t' : Files) : Type 0 where
  pub answer : fs_write_fd t (pos (3 + i)) buf n ≡ (t', pos n)
  pub writer : IsWriter t' i
  pub offset : (t'.handles i).offset ≡ (t.handles i).offset + n
  pub content : t'.wbuf j ≡ (
      if in_range (t.handles i).offset ((t.handles i).offset + n) j
      then buf (j - (t.handles i).offset)
      else if in_range (t.handles i).wlen (t.handles i).offset j
      then 0
      else t.wbuf j)

-- A write that fits the buffer of 64 KiB succeeds: the bytes are at the offset, a gap behind the old
-- end is zero, the rest of the buffer stays, and the handle is still a writer.
pub fs_write_fd-Stored :
    (t : Files) (i n j : ℕ) (buf : Bytes)
    → IsWriter t i
    → (t.handles i).offset + n ≤ 65536
    → (t' : Files) × Stored t i buf n j t'
unfolding fs_write_fd write_handle
fs_write_fd-Stored t i n j buf w fits = (
  (write_handle t i buf n).0,
  record {
    answer = ground (arith, fd_lookup_lem t i w.index w.in_use, w.writes, fits);
    writer = record {
      index = w.index;
      in_use = ground (arith, w.in_use, w.writes, fits);
      writes = ground (arith, w.writes, fits);
      bounded = ground (arith, w.bounded, w.writes, fits);
    };
    offset = ground (arith, w.writes, fits);
    content = ground (
      arith,
      w.writes,
      fits,
      copy_in_lem t.wbuf buf (t.handles i).offset n j,
      copy_in_lem (fill_gap t.wbuf (t.handles i).wlen (t.handles i).offset) buf (t.handles i).offset
          n j,
      each_lem (λ i old. 0) ((t.handles i).offset - (t.handles i).wlen) (t.handles i).wlen t.wbuf j,
    );
  },
)

-- the handle moved to a place, and read on from there
moved : Files → ℕ → ℕ → Files
moved t i place = set_handle t i (record (t.handles i) { offset = place })

seek_lem :
    (t : Files) (i place : ℕ)
    → IsWriter t i
    → place ≤ 65536
    → fs_seek t (pos (3 + i)) place 0 ≡ (moved t i place, pos place)
unfolding fs_seek seek_base seek_handle moved
seek_lem t i place w small =
    ground (arith, fd_lookup_lem t i w.index w.in_use, small, ap (moved t i) same)
  where
    same : (0 + place) % 2 ^ 32 ≡ place
    same = omega (arith, small)

-- Reading from the buffer.
after_read : Files → ℕ → Bytes → ℕ → Files × Bytes × ℤ
after_read t i buf n =
    let h = t.handles i in
    (
      set_handle t i (record h { offset = (h.offset + n) % 2 ^ 32 }),
      copy_in buf 0 (λ j. t.wbuf (h.offset + j)) n,
      pos n,
    )

read_writer :
    (t : Files) (i n : ℕ) (buf : Bytes)
    → i < 8
    → (t.handles i).used ≡ true
    → (t.handles i).writable ≡ true
    → (t.handles i).offset + n ≤ (t.handles i).wlen
    → fs_read_fd t (pos (3 + i)) buf n ≡ some (after_read t i buf n)
unfolding fs_read_fd read_handle after_read
read_writer t i n buf lt used writes inside = ground (
  arith,
  fd_lookup_lem t i lt used,
  writes,
  ap (λ (k : ℕ). some (after_read t i buf k)) (all n inside),
)
  where
    all :
        (n : ℕ)
        → (t.handles i).offset + n ≤ (t.handles i).wlen
        → available (t.handles i).offset (t.handles i).wlen n ≡ n
    all n inside = ground (arith, inside)

-- For a writer with a file of at least `place + n` bytes: `fs_seek` to `place` and `fs_read_fd` of `n`
-- bytes answer `place` and `n`, and the caller's buffer gets the file's bytes from `place` on, and
-- nothing else.
pub read-seek :
    (t : Files) (i place n : ℕ) (buf : Bytes)
    → IsWriter t i
    → place + n ≤ (t.handles i).wlen
    → (t1 : Files) × (t2 : Files) × (out : Bytes) × (fs_seek t (pos (3 + i)) place 0
        ≡ (t1, pos place))
      × (fs_read_fd t1 (pos (3 + i)) buf n ≡ some (t2, out, pos n))
      × ((j : ℕ) → out j ≡ (if ltb j n then t.wbuf (place + j) else buf j))
unfolding moved after_read
read-seek t i place n buf w inside =
    let small : place ≤ 65536 = omega (arith, w.bounded, inside) in
    (
      moved t i place,
      (after_read (moved t i place) i buf n).0,
      (after_read (moved t i place) i buf n).1,
      seek_lem t i place w small,
      read_writer (moved t i place) i n buf w.index (ground (arith, w.in_use))
          (ground (arith, w.writes)) (ground (arith, inside)),
      λ j. ground (
        arith,
        copy_in_lem buf (λ j. t.wbuf (((moved t i place).handles i).offset + j)) 0 n j,
        ap (λ (k : ℕ). t.wbuf (k + j)) at_place,
      ),
    )
  where
    at_place : ((moved t i place).handles i).offset ≡ place
    at_place = ground arith
