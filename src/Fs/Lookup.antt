-- ===== src/Fs/Lookup.antt =====
-- `fs_read` as a function of the slot that the lookup finds.
use mathlib.Core.Path.{ap₂}
use lunaria_os.Base.{
  refl, ap, arith, ◌<◌, ◌≡◌, ℕ, zero, suc, ◌+◌, ◌-◌, ◌*◌, ◌/◌, ◌%◌, ◌^◌, List, true, false, not,
  ◌&&◌, Option, none, some, Bytes, ltb, if◌then◌else◌,
}
use lunaria_os.Base.Int.{ℤ, negsuc}
use lunaria_os.Fs.{Fs, read_answer, copy_in, fs_read, read_loop, sectors_of}
use lunaria_os.Fs.Disk.{chunk, chunk_lem}
use lunaria_os.Fs.Entry.{fs_find_lem, is_named, is_used, search, search_sound, slot_entry}
use lunaria_os.Fs.Stored.{SameEntry}

-- Reading the same sectors.
read_loop-cong :
    (f : ℕ) (fs fs' : Fs) (lba off remaining : ℕ) (buf : Bytes)
    → ((a : ℕ) → fs.faulty a ≡ false)
    → ((a : ℕ) → fs'.faulty a ≡ false)
    → ((k : ℕ)
        → k * 512 < off + remaining
        → fs'.disk ((lba + k) % 2 ^ 28) ≡ fs.disk ((lba + k) % 2 ^ 28))
    → read_loop f fs' lba off remaining buf ≡ read_loop f fs lba off remaining buf
unfolding read_loop
read_loop-cong zero fs fs' lba off remaining buf ok ok' same = refl
read_loop-cong (suc f) fs fs' lba off zero buf ok ok' same = refl
read_loop-cong (suc f) fs fs' lba off (suc r) buf ok ok' same =
    let n = chunk (suc r) in
    let a = (lba + off / 512) % 2 ^ 28 in
    ground (
      arith,
      ok a,
      ok' a,
      ap (λ (sec : Bytes). read_loop f fs' lba (off + n) (suc r - n) (copy_in buf off sec n))
          (same (off / 512) (omega arith)),
      read_loop-cong f fs fs' lba (off + n) (suc r - n) (copy_in buf off (fs.disk a) n) ok ok'
          (λ k lt. same k (omega (arith, lt, (chunk_lem (suc r)).0))),
    )

-- The answer of `fs_read` from the slot that the lookup finds.
unfoldable pub read_at : Fs → Bytes → ℕ → Option ℕ → Bytes × ℤ
read_at fs buf max none = (buf, negsuc 0)
read_at fs buf max (some l) =
    let e = slot_entry fs l in
    if ltb max e.size
    then (buf, negsuc 0)
    else read_answer e.size (read_loop (e.size / 512 + 1) fs e.lba 0 e.size buf)

pub fs_read-slot :
    (fs : Fs) (name : List ℕ) (buf : Bytes) (max : ℕ)
    → ((a : ℕ) → fs.faulty a ≡ false)
    → fs_read fs name buf max
      ≡ read_at fs buf max (search (is_named fs name) 0 (fs.dir_sectors * 16))
unfolding fs_read read_at
fs_read-slot fs name buf max ok =
    ground (arith, fs_find_lem fs name (λ t. ap not (ok ((fs.dir_lba + t) % 2 ^ 28))))

-- Two disks that agree on a file of the first.
pub read_at-same :
    (fs fs' : Fs) (buf : Bytes) (max l : ℕ)
    → ((a : ℕ) → fs.faulty a ≡ false)
    → ((a : ℕ) → fs'.faulty a ≡ false)
    → SameEntry (slot_entry fs' l) (slot_entry fs l)
    → (slot_entry fs l).size + 511 < 2 ^ 32
    → ((a : ℕ)
        → a < sectors_of (slot_entry fs l).size
        → fs'.disk (((slot_entry fs l).lba + a) % 2 ^ 28)
          ≡ fs.disk (((slot_entry fs l).lba + a) % 2 ^ 28))
    → read_at fs' buf max (some l) ≡ read_at fs buf max (some l)
unfolding read_at
read_at-same fs fs' buf max l ok ok' e small same =
    let s = (slot_entry fs l).size in
    let a = (slot_entry fs l).lba in
    let loop =
      read_loop-cong (s / 512 + 1) fs fs' a 0 s buf ok ok'
        (λ k lt. same k (omega (arith, lt, small))) in
    ground (
      arith,
      loop,
      e.of_size,
      e.at_lba,
      ap₂ (λ (a s : ℕ). read_loop (s / 512 + 1) fs' a 0 s buf) e.at_lba e.of_size,
    )

-- What a lookup finds is a used slot of that name.
pub found_slot :
    (fs : Fs) (name : List ℕ) (n l : ℕ)
    → search (is_named fs name) 0 n ≡ some l
    → (is_named fs name l ≡ true) × (ltb l n && is_used fs l) ≡ true
found_slot fs name n l e =
    let (hit, le, lt) = search_sound (is_named fs name) 0 n l e in (hit, ground (arith, hit, lt))
