-- ===== src/Fs/Write.antt =====
-- `fs_write` and `fs_read` of a file in the top directory, on a working disk.
use mathlib.Core.Path.{ap₂}
use lunaria_os.Base.{
  ℕ, ◌+◌, ◌-◌, ◌*◌, ◌/◌, ◌%◌, ◌^◌, ◌<◌, ◌≤◌, ◌≡◌, refl, ap, ◌∙◌, List, Bool, true, false, not, ◌&&◌,
  ◌||◌, some, Bytes, ltb, if◌then◌else◌, arith, length,
}
use lunaria_os.Base.Int.{pos}
use lunaria_os.Fs.{Fs, fs_find, fs_read, read_loop, sectors_of}
use lunaria_os.Fs.Disk.{data_sector_lem, placed_lem, read_loop_lem}
use lunaria_os.Fs.Entry.{entry_of, fs_find_lem, is_named, is_used, search_first, slot_entry}
use lunaria_os.Fs.Names.{same_name-cong}
use lunaria_os.Fs.Put.{IsFile, IsSound, IsTarget, after, put_file_lem, target-IsTarget}
use lunaria_os.Fs.Scan.{Upto, num, scan-Upto, view}
use lunaria_os.Fs.Slots.{chosen-IsStored, others-SameEntry}
use lunaria_os.Fs.Stored.{SameEntry}
use lunaria_os.Fs.Update.{
  Scanned, data_sector, fs_write, has_parent, has_slash, put_file, scan, target, write_fuel,
}

-- What the scan found, for a file that has a slot: the slot is free, or the file's first.
pub record Chosen (fs : Fs) (name : List ℕ) (limit size : ℕ) (v : Scanned) : Type 0 where
  pub scanned : scan fs name ≡ some v
  pub slot : v.has_slot ≡ true
  pub place : IsTarget fs limit size v
  pub known : (j : ℕ) → Upto (view fs name) fs.data_lba limit (fs.dir_sectors * 16) j v

-- whether a slot can take the file: it is free, or the file's
abbrev pub takes : Fs → List ℕ → ℕ → Bool
takes fs name k = ltb k (fs.dir_sectors * 16) && (not (is_used fs k) || is_named fs name k)

pub scan-Chosen :
    (fs : Fs) (name : List ℕ) (limit size k : ℕ)
    → IsSound fs limit
    → limit + sectors_of size ≤ 2 ^ 28
    → takes fs name k ≡ true
    → (v : Scanned) × Chosen fs name limit size v
scan-Chosen fs name limit size k so room h =
    let (v, e, u) =
      scan-Upto fs name limit so.data_area (omega (arith, room))
        (λ t. ap not (so.works ((fs.dir_lba + t) % 2 ^ 28))) so.files in
    let at = u k in
    let slot : v.has_slot ≡ true = ground (arith, at.vacant, at.missed, at.hit, h) in
    (
      v,
      record {
        scanned = e;
        slot = slot;
        place = target-IsTarget fs name limit size v so slot (u 0);
        known = u;
      },
    )

-- A lookup does not see a difference between entries of the same name.
pub is_named-same :
    (fs fs' : Fs) (name : List ℕ) (k : ℕ)
    → length name < 23
    → SameEntry (slot_entry fs' k) (slot_entry fs k)
    → is_named fs' name k ≡ is_named fs name k
is_named-same fs fs' name k short h = ground (
  arith,
  h.name 0 (omega arith),
  same_name-cong (slot_entry fs' k).name (slot_entry fs k).name 0 name
      (λ j le. h.name j (omega (arith, le, short))),
)

-- After `put_file` the file is found in the chosen slot.
pub find-after :
    (fs : Fs) (name : List ℕ) (limit size type : ℕ) (content : Bytes) (v : Scanned)
    → IsSound fs limit
    → IsFile name size limit
    → Chosen fs name limit size v
    → fs_find (after fs v name type content size) name
      ≡ some (slot_entry (after fs v name type content size) (num v))
find-after fs name limit size type content v so f c =
    let fs' = after fs v name type content size in
    let new = chosen-IsStored fs limit v name type content size so c.place f in
    fs_find_lem fs' name (λ t. ap not (so.works ((fs.dir_lba + t) % 2 ^ 28)))
    ∙ ap (entry_of fs') (
        search_first (is_named fs' name) (fs.dir_sectors * 16) (num v) inside
          (ground (arith, new.matches, new.first, f.named))
          (λ j lt.
            is_named-same fs fs' name j f.short (
              others-SameEntry fs limit v name type content size j so c.place f.room
                (omega (arith, lt, inside)) (omega (arith, lt)))
            ∙ ground (arith, (c.known j).first, (c.known j).missed, lt, inside)))
  where
    inside : num v < fs.dir_sectors * 16
    inside = ground (arith, c.place.sector, c.place.index)

-- The sectors of the file hold its contents.
held-after :
    (fs : Fs) (name : List ℕ) (limit size type : ℕ) (content : Bytes) (v : Scanned) (k j : ℕ)
    → IsSound fs limit
    → IsFile name size limit
    → IsTarget fs limit size v
    → j < 512
    → k * 512 + j < size
    → (after fs v name type content size).disk ((target v (sectors_of size) + k) % 2 ^ 28) j
      ≡ content (k * 512 + j)
held-after fs name limit size type content v k j so f t lj lt =
    let lba = target v (sectors_of size) in
    ground (
      arith,
      placed_lem content size lba 0 (sectors_of size) fs.disk ((lba + k) % 2 ^ 28) j,
      data_sector_lem content size k j lj,
      ap (λ (t : ℕ). data_sector content size t j) at,
      so.directory,
      so.data_area,
      t.above,
      t.within,
      t.sector,
      f.small,
      f.room,
    )
  where
    at : (target v (sectors_of size) + k) % 2 ^ 28 - target v (sectors_of size) ≡ k
    at = ground (arith, t.within, f.room, lt, f.small)

read-after :
    (fs : Fs) (name : List ℕ) (limit size type : ℕ) (content buf : Bytes) (max : ℕ) (v : Scanned)
    → IsSound fs limit
    → IsFile name size limit
    → Chosen fs name limit size v
    → size < 2 ^ 31
    → size ≤ max
    → (out : Bytes) × (fs_read (after fs v name type content size) name buf max ≡ (out, pos size))
      × ((j : ℕ) → out j ≡ (if ltb j size then content j else buf j))
unfolding fs_read
read-after fs name limit size type content buf max v so f c int le =
    let fs' = after fs v name type content size in
    let e = slot_entry fs' (num v) in
    let new = chosen-IsStored fs limit v name type content size so c.place f in
    let (out, eq, bytes) =
      read_loop_lem (size / 512 + 1) fs' (target v (sectors_of size)) 0 size buf content so.works
        (λ k j lj lt.
          held-after fs name limit size type content v k j so f c.place lj (omega (arith, lt)))
        refl (omega arith) in
    (
      out,
      ground (
        arith,
        find-after fs name limit size type content v so f c,
        new.of_size,
        le,
        int,
        ap₂ (λ (a s : ℕ). read_loop (s / 512 + 1) fs' a 0 s buf) new.at_lba new.of_size,
        eq,
      ),
      λ j. ground (arith, bytes j),
    )

-- A file without a parent: `fs_write` is `put_file`.
pub fs_write-top :
    (stack : Bytes) (fs fs' : Fs) (name : List ℕ) (type : ℕ) (content : Bytes) (size : ℕ)
    → length name < 23
    → has_slash name ≡ false
    → put_file fs name type content size ≡ (fs', true)
    → fs_write stack fs name type content size ≡ (fs', true)
unfolding fs_write write_fuel has_parent
fs_write-top stack fs fs' name type content size short top e =
    ground (arith, short, top, ap (λ (r : Fs × Bool). r.0) e, ap (λ (r : Fs × Bool). r.1) e)

-- On a working disk whose files lie between the directory and `limit`, with room for the file
-- behind that and a slot that is free or the file's: `fs_write` of a name of 1 to 22 bytes without a
-- slash and of less than 2 ^ 31 bytes, so that the size is an `int`, succeeds,
-- and `fs_read` then answers the size and puts the contents into the buffer, and nothing else.
pub fs_read-fs_write :
    (stack : Bytes) (fs : Fs) (name : List ℕ) (type : ℕ) (content : Bytes) (size limit k max : ℕ)
    (buf : Bytes)
    → IsSound fs limit
    → IsFile name size limit
    → has_slash name ≡ false
    → takes fs name k ≡ true
    → size < 2 ^ 31
    → size ≤ max
    → (fs' : Fs) × (out : Bytes) × (fs_write stack fs name type content size ≡ (fs', true))
      × (fs_read fs' name buf max ≡ (out, pos size))
      × ((j : ℕ) → out j ≡ (if ltb j size then content j else buf j))
fs_read-fs_write stack fs name type content size limit k max buf so f top free small le =
    let (v, c) = scan-Chosen fs name limit size k so f.room free in
    let (out, eq, bytes) = read-after fs name limit size type content buf max v so f c small le in
    (
      after fs v name type content size,
      out,
      fs_write-top stack fs _ name type content size f.short top
          (put_file_lem fs v name type content size so.works c.scanned c.slot),
      eq,
      bytes,
    )
