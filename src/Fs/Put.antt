-- ===== src/Fs/Put.antt =====
-- `put_file` on a disk with no faulty sector: it succeeds when there is room, and the slots and the
-- sectors of the disk that it leaves.
use lunaria_os.Base.{
  ℕ, ◌+◌, ◌*◌, ◌%◌, ◌^◌, ◌<◌, ◌≤◌, ◌≡◌, ◌≢◌, List, true, false, some, Bytes, arith, length, get_or,
}
use lunaria_os.Fs.{Fs, sectors_of}
use lunaria_os.Fs.Disk.{placed, put, write_data_lem}
use lunaria_os.Fs.Scan.{Upto, lies, num, view}
use lunaria_os.Fs.Stored.{stored}
use lunaria_os.Fs.Update.{Scanned, commit, put_file, scan, target, write_entry}

-- A working disk whose files lie between the directory and a limit.
pub record IsSound (fs : Fs) (limit : ℕ) : Type 0 where
  pub works : (a : ℕ) → fs.faulty a ≡ false
  pub directory : fs.dir_lba + fs.dir_sectors ≤ fs.data_lba
  pub data_area : fs.data_lba ≤ limit
  pub files : (k : ℕ) → lies fs limit k ≡ true

-- What `fs_write` asks of a file: a name of 1 to 22 bytes, and room behind the limit.
pub record IsFile (name : List ℕ) (size limit : ℕ) : Type 0 where
  pub named : get_or name 0 0 ≢ 0
  pub short : length name < 23
  pub small : size + 511 < 2 ^ 32
  pub room : limit + sectors_of size ≤ 2 ^ 28

-- the sector of the slot that the scan chose, and the disk after the data and after the entry
abbrev pub slot_lba : Fs → Scanned → ℕ
slot_lba fs v = (fs.dir_lba + v.slot_sec) % 2 ^ 28

abbrev pub with_data : Fs → Scanned → Bytes → ℕ → ℕ → Bytes
with_data fs v content size =
    placed content size (target v (sectors_of size)) 0 (sectors_of size) fs.disk

abbrev pub after : Fs → Scanned → List ℕ → ℕ → Bytes → ℕ → Fs
after fs v name type content size = record fs {
  disk = put (with_data fs v content size) (slot_lba fs v) (
      stored (with_data fs v content size (slot_lba fs v)) v.slot_i name type
        (target v (sectors_of size)) size);
}

pub put_file_lem :
    (fs : Fs) (v : Scanned) (name : List ℕ) (type : ℕ) (content : Bytes) (size : ℕ)
    → ((a : ℕ) → fs.faulty a ≡ false)
    → scan fs name ≡ some v
    → v.has_slot ≡ true
    → put_file fs name type content size ≡ (after fs v name type content size, true)
unfolding put_file commit write_entry
put_file_lem fs v name type content size ok e slot = ground (
  arith,
  e,
  slot,
  ok (slot_lba fs v),
  write_data_lem content size (target v (sectors_of size)) 0 (sectors_of size) fs ok,
)

-- The scan chose a place for the data.
pub record IsTarget (fs : Fs) (limit size : ℕ) (v : Scanned) : Type 0 where
  pub above : fs.data_lba ≤ target v (sectors_of size)
  pub within : target v (sectors_of size) + sectors_of size ≤ limit + sectors_of size
  pub sector : v.slot_sec < fs.dir_sectors
  pub index : v.slot_i < 16

pub target-IsTarget :
    (fs : Fs) (name : List ℕ) (limit size : ℕ) (v : Scanned)
    → IsSound fs limit
    → v.has_slot ≡ true
    → Upto (view fs name) fs.data_lba limit (fs.dir_sectors * 16) 0 v
    → IsTarget fs limit size v
target-IsTarget fs name limit size v s slot u =
    let l = s.files (num v) in
    record {
      above = ground (arith, l, u.hit, u.old, u.below, u.base, slot);
      within = ground (arith, l, u.hit, u.old, u.below, u.top, slot);
      sector = ground (arith, u.below, slot);
      index = ground (arith, u.below, slot);
    }
