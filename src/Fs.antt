-- ===== src/Fs.antt =====
-- The file system LUNFS1 of src/drivers/fs.c: a directory of 32-byte entries, 16 to a sector, and
-- files in runs of sectors. The disk is what `ata_read_sectors` and `ata_write_sectors` make of it
-- for one sector: an array of sectors of bytes, where a faulty sector refuses both. The drive gets 28
-- bits of the address, so that a sum that wraps at 32 bits is taken modulo 2 ^ 28 here. A path is
-- the list of its bytes before the terminating zero. Here are lookup, reading and deletion; Update has
-- the functions that write.
pub mod Names
pub mod Entry
pub mod Lookup
pub mod Delete
pub mod Deleted
pub mod Update
pub mod Handles
pub mod Listing
pub mod ListingBounds
pub mod FdWrite
pub mod FdBuffer
pub mod Stored
pub mod Disk
pub mod Scan
pub mod Put
pub mod Slots
pub mod Write
pub mod Others
mod Tests
mod FdTests
use lunaria_os.Base.{
  ℕ, zero, suc, ◌+◌, ◌-◌, ◌*◌, ◌/◌, ◌%◌, ◌^◌, List, [], ◌∷◌, Bool, true, false, not, ◌&&◌, ◌||◌,
  Option, none, some, Bytes, write, each, get_or, length, take, ltb, leb, ◌==◌, if◌then◌else◌,
}
use lunaria_os.Base.Int.{ℤ, pos, negsuc}

abbrev pub max_name : ℕ
max_name = 23

abbrev pub entry_size : ℕ
entry_size = 32

abbrev pub fs_dir : ℕ
fs_dir = 1

abbrev pub fs_file : ℕ
fs_file = 0

-- the disk, with the fields of the superblock that `fs_mount` has read
pub record Fs : Type 0 where
  pub disk : ℕ → Bytes
  pub faulty : ℕ → Bool
  pub dir_lba : ℕ
  pub dir_sectors : ℕ
  pub data_lba : ℕ

-- `struct file_entry`
pub record FileEntry : Type 0 where
  pub name : Bytes
  pub type : ℕ
  pub lba : ℕ
  pub size : ℕ

-- `ata_read_sectors(lba, 1, sec)`; `none` is its -1
abbrev pub read_sector : Fs → ℕ → Option Bytes
read_sector fs lba = let a = lba % 2 ^ 28 in if fs.faulty a then none else some (fs.disk a)

-- `ata_write_sectors(lba, 1, sec)`
abbrev pub write_sector : Fs → ℕ → Bytes → Option Fs
write_sector fs lba sec =
    let a = lba % 2 ^ 28 in
    if fs.faulty a then none else some (record fs { disk = λ k. if k == a then sec else fs.disk k })

-- an `unsigned int` at an offset, lowest byte first
abbrev pub word_at : Bytes → ℕ → ℕ
word_at sec i = sec i + sec (i + 1) * 2 ^ 8 + sec (i + 2) * 2 ^ 16 + sec (i + 3) * 2 ^ 24

-- the entry at an offset of a sector
unfoldable pub entry_at : Bytes → ℕ → FileEntry
entry_at sec off = record {
  name = λ j. sec (off + j);
  type = sec (off + 23);
  lba = word_at sec (off + 24);
  size = word_at sec (off + 28);
}

-- `strcmp(e->name, name) == 0`, from byte `i` of the entry's name on
unfoldable pub same_name : Bytes → ℕ → List ℕ → Bool
same_name entry_name i [] = entry_name i == 0
same_name entry_name i (c ∷ cs) = (entry_name i == c) && same_name entry_name (i + 1) cs

-- The loop of `fs_find` over the entries of a sector: `n` entries from number `i` on.
unfoldable pub find_entry : Bytes → List ℕ → ℕ → ℕ → Option FileEntry
find_entry sec name i zero = none
find_entry sec name i (suc n) =
    let e = entry_at sec (i * entry_size) in
    let rest = find_entry sec name (i + 1) n in
    if e.name 0 == 0 then rest else if same_name e.name 0 name then some e else rest

-- The loop over the sectors of the directory, `n` of them from number `s` on.
unfoldable pub find_sector : Fs → List ℕ → ℕ → ℕ → Option FileEntry
find_sector fs name s zero = none
find_sector fs name s (suc n) =
    let rest = find_sector fs name (s + 1) n in
    elim (read_sector fs (fs.dir_lba + s)) [
      | none ↦ none
      | some sec ↦ elim (find_entry sec name 0 16) [ none ↦ rest | some e ↦ some e ]
    ]

unfoldable pub fs_find : Fs → List ℕ → Option FileEntry
fs_find fs name = find_sector fs name 0 fs.dir_sectors

-- `memcpy(buf + off, src, n)`
unfoldable pub copy_in : Bytes → ℕ → Bytes → ℕ → Bytes
copy_in buf off src n = each (λ i old. src (i - off)) n off buf

-- The loop that reads a file, with a round of fuel for each sector. `off` bytes are read, and
-- `remaining` are left. The Boolean is false where a sector could not be read, with the bytes of those before
-- it in the buffer.
unfoldable pub read_loop : ℕ → Fs → ℕ → ℕ → ℕ → Bytes → Bytes × Bool
read_loop zero fs lba off remaining buf = (buf, remaining == 0)
read_loop (suc f) fs lba off remaining buf =
    let n = if ltb remaining 512 then remaining else 512 in
    let rest : Bytes × Bool = elim (read_sector fs (lba + off / 512)) [
      | none ↦ (buf, false)
      | some sec ↦ read_loop f fs lba (off + n) (remaining - n) (copy_in buf off sec n)
    ] in
    if remaining == 0 then (buf, true) else rest

abbrev pub sectors_of : ℕ → ℕ
sectors_of size = (size + 511) % 2 ^ 32 / 512

-- the `int` of a word of 32 bits
abbrev pub int_of : ℕ → ℤ
int_of x = if ltb x (2 ^ 31) then pos x else negsuc (2 ^ 32 - 1 - x)

-- the answer of `fs_read` behind its loop
abbrev pub read_answer : ℕ → Bytes × Bool → Bytes × ℤ
read_answer size (out, ok) = (out, if ok then int_of size else negsuc 0)

-- The caller's buffer after the call, and the answer. Where a sector cannot be read, the buffer has the
-- bytes of those before it.
unfoldable pub fs_read : Fs → List ℕ → Bytes → ℕ → Bytes × ℤ
fs_read fs name buf max = elim (fs_find fs name) [
  | none ↦ (buf, negsuc 0)
  | some e ↦
      if ltb max e.size
      then (buf, negsuc 0)
      else read_answer e.size (read_loop (e.size / 512 + 1) fs e.lba 0 e.size buf)
]

-- The loop of `fs_delete` over a sector: the number of the entry that it finds.
unfoldable pub find_index : Bytes → List ℕ → ℕ → ℕ → Option ℕ
find_index sec name i zero = none
find_index sec name i (suc n) =
    let e = entry_at sec (i * entry_size) in
    let rest = find_index sec name (i + 1) n in
    if e.name 0 == 0 then rest else if same_name e.name 0 name then some i else rest

unfoldable pub delete_sector : Fs → List ℕ → ℕ → ℕ → Option Fs
delete_sector fs name s zero = none
delete_sector fs name s (suc n) =
    let rest = delete_sector fs name (s + 1) n in
    elim (read_sector fs (fs.dir_lba + s)) [
      | none ↦ none
      | some sec ↦ elim (find_index sec name 0 16) [
        | none ↦ rest
        | some i ↦ write_sector fs (fs.dir_lba + s) (write sec (i * entry_size) 0)
      ]
    ]

-- `none` is -1: there is no such file, or a sector could not be read or written.
unfoldable pub fs_delete : Fs → List ℕ → Option Fs
fs_delete fs name = delete_sector fs name 0 fs.dir_sectors
