-- ===== src/Fs/Slots.antt =====
-- The slots of the directory after `put_file`: the chosen one has the new entry, and the others what
-- they had.
use mathlib.Core.Path.{subst, fun_ext}
use lunaria_os.Base.{
  ℕ, ◌+◌, ◌*◌, ◌/◌, ◌%◌, ◌^◌, ◌<◌, ◌≤◌, ◌≡◌, ◌≢◌, ap, sym, ◌∙◌, List, Bytes, ◌==◌, arith,
  Bool-cases, inl, inr, ==_iff,
}
use lunaria_os.Fs.{FileEntry, Fs, entry_at, sectors_of}
use lunaria_os.Fs.Disk.{placed_lem}
use lunaria_os.Fs.Entry.{slot_entry, slot_entry_at, slot_sector}
use lunaria_os.Fs.Put.{IsFile, IsSound, IsTarget, after, slot_lba, with_data}
use lunaria_os.Fs.Scan.{num}
use lunaria_os.Fs.Stored.{
  IsStored, SameEntry, entry_at-both, stored, stored-IsStored, stored_elsewhere,
}
use lunaria_os.Fs.Update.{Scanned, target}

-- The data does not reach the directory.
directory_kept :
    (fs : Fs) (limit : ℕ) (v : Scanned) (content : Bytes) (size s j : ℕ)
    → IsSound fs limit
    → IsTarget fs limit size v
    → limit + sectors_of size ≤ 2 ^ 28
    → s < fs.dir_sectors
    → with_data fs v content size ((fs.dir_lba + s) % 2 ^ 28) j ≡ slot_sector fs s j
directory_kept fs limit v content size s j so t room lt = ground (
  arith,
  placed_lem content size (target v (sectors_of size)) 0 (sectors_of size) fs.disk
      ((fs.dir_lba + s) % 2 ^ 28) j,
  so.directory,
  so.data_area,
  t.above,
  t.within,
)

-- The other slots, byte by byte.
other_byte :
    (fs : Fs) (limit : ℕ) (v : Scanned) (name : List ℕ) (type : ℕ) (content : Bytes)
    (size s i j : ℕ)
    → IsSound fs limit
    → IsTarget fs limit size v
    → limit + sectors_of size ≤ 2 ^ 28
    → s < fs.dir_sectors
    → i < 16
    → j < 32
    → s * 16 + i ≢ num v
    → slot_sector (after fs v name type content size) s (i * 32 + j) ≡ slot_sector fs s (i * 32 + j)
other_byte fs limit v name type content size s i j so t room ls li lj ne =
    elim (Bool-cases (s == v.slot_sec)) [
      | inl e ↦ ground (
        arith,
        e,
        t.sector,
        so.directory,
        so.data_area,
        stored_elsewhere (with_data fs v content size (slot_lba fs v)) v.slot_i name type
            (target v (sectors_of size)) size i j lj (λ same. ne (ground (arith, e, same))),
        directory_kept fs limit v content size v.slot_sec (i * 32 + j) so t room t.sector,
        ap (λ (t : ℕ). slot_sector fs t (i * 32 + j)) ((==_iff s v.slot_sec).0 e),
      )
      | inr e ↦ ground (
        arith,
        e,
        t.sector,
        so.directory,
        so.data_area,
        t.above,
        t.within,
        directory_kept fs limit v content size s (i * 32 + j) so t room ls,
      )
    ]

pub others-SameEntry :
    (fs : Fs) (limit : ℕ) (v : Scanned) (name : List ℕ) (type : ℕ) (content : Bytes) (size k : ℕ)
    → IsSound fs limit
    → IsTarget fs limit size v
    → limit + sectors_of size ≤ 2 ^ 28
    → k < fs.dir_sectors * 16
    → k ≢ num v
    → SameEntry (slot_entry (after fs v name type content size) k) (slot_entry fs k)
others-SameEntry fs limit v name type content size k so t room lt ne =
    entry_at-both (slot_sector (after fs v name type content size) (k / 16))
      (slot_sector fs (k / 16)) (k % 16 * 32)
      (λ j lj.
        other_byte fs limit v name type content size (k / 16) (k % 16) j so t room (omega arith)
          (omega arith) lj (λ e. ne (omega (arith, e))))

-- The slot that the scan chose has the new entry.
pub chosen-IsStored :
    (fs : Fs) (limit : ℕ) (v : Scanned) (name : List ℕ) (type : ℕ) (content : Bytes) (size : ℕ)
    → IsSound fs limit
    → IsTarget fs limit size v
    → IsFile name size limit
    → IsStored
        (slot_entry (after fs v name type content size) (num v))
        name
        (target v (sectors_of size))
        size
chosen-IsStored fs limit v name type content size so t f =
    subst (λ (e : FileEntry). IsStored e name (target v (sectors_of size)) size)
      (sym (
        slot_entry_at (after fs v name type content size) v.slot_sec v.slot_i t.index
        ∙ ap (λ (sec : Bytes). entry_at sec (v.slot_i * 32)) here))
      (stored-IsStored (with_data fs v content size (slot_lba fs v)) v.slot_i name type
        (target v (sectors_of size)) size f.short (ground (arith, t.within, f.room))
        (ground (arith, f.small)))
  where
    here :
        slot_sector (after fs v name type content size) v.slot_sec
        ≡ stored
            (with_data fs v content size (slot_lba fs v))
            v.slot_i
            name
            type
            (target v (sectors_of size))
            size
    here = fun_ext (λ j. ground arith)
