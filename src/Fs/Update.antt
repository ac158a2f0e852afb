-- ===== src/Fs/Update.antt =====
-- `fs_write`, `fs_mkdir` and `fs_append` of src/drivers/fs.c: the scan of the directory, the data, the
-- new entry, and the line in the listing of the parent directory.
use lunaria_os.Base.{
  ℕ, zero, suc, ◌+◌, ◌-◌, ◌*◌, ◌/◌, ◌%◌, ◌^◌, List, [], ◌∷◌, Bool, true, false, not, ◌&&◌, ◌||◌,
  Option, none, some, Bytes, write, each, get_or, length, ltb, leb, ◌==◌, if◌then◌else◌,
}
use lunaria_os.Fs.{
  Fs, copy_in, entry_at, entry_size, fs_dir, fs_find, max_name, read_loop, read_sector, same_name,
  sectors_of, write_sector,
}

unfoldable pub has_slash : List ℕ → Bool
has_slash [] = false
has_slash (c ∷ cs) = (c == b'/') || has_slash cs

-- `parent_of`: what stands before the last slash, and nothing if there is none
unfoldable pub parent_of : List ℕ → List ℕ
parent_of [] = []
parent_of (c ∷ cs) = if has_slash cs then c ∷ parent_of cs else []

-- The variables of the scan in `fs_write`: the slot for the entry, if there is one (`slot_sec >= 0`),
-- the file of that name with the sectors that it has, and the first sector behind all files.
pub record Scanned : Type 0 where
  pub has_slot : Bool
  pub slot_sec : ℕ
  pub slot_i : ℕ
  pub found : Bool
  pub old_lba : ℕ
  pub old_cap : ℕ
  pub next_free : ℕ

-- The body of the scan for entry `i` of sector `s`.
unfoldable pub scan_entry : Bytes → List ℕ → ℕ → ℕ → Scanned → Scanned
scan_entry sec name s i v =
    let e = entry_at sec (i * entry_size) in
    let end = (e.lba + sectors_of e.size) % 2 ^ 32 in
    let next = if ltb v.next_free end then end else v.next_free in
    if e.name 0 == 0
    then if v.has_slot then v else record v { has_slot = true; slot_sec = s; slot_i = i }
    else if not v.found && same_name e.name 0 name
    then record {
      has_slot = true;
      slot_sec = s;
      slot_i = i;
      found = true;
      old_lba = e.lba;
      old_cap = sectors_of e.size;
      next_free = next;
    }
    else record v { next_free = next }

unfoldable pub scan_entries : Bytes → List ℕ → ℕ → ℕ → ℕ → Scanned → Scanned
scan_entries sec name s i zero v = v
scan_entries sec name s i (suc n) v = scan_entries sec name s (i + 1) n (scan_entry sec name s i v)

unfoldable pub scan_sectors : Fs → List ℕ → ℕ → ℕ → Scanned → Option Scanned
scan_sectors fs name s zero v = some v
scan_sectors fs name s (suc n) v = elim (read_sector fs (fs.dir_lba + s)) [
  | none ↦ none
  | some sec ↦ scan_sectors fs name (s + 1) n (scan_entries sec name s 0 16 v)
]

unfoldable pub scan : Fs → List ℕ → Option Scanned
scan fs name = scan_sectors fs name 0 fs.dir_sectors (record {
  has_slot = false;
  slot_sec = 0;
  slot_i = 0;
  found = false;
  old_lba = 0;
  old_cap = 0;
  next_free = fs.data_lba;
})

-- `pad` for the sector `k` of the data: a chunk of it, filled up with zeros.
unfoldable pub data_sector : Bytes → ℕ → ℕ → Bytes
data_sector content size k =
    let left = size - k * 512 in
    let chunk = if ltb 512 left then 512 else left in
    each (λ i old. content (k * 512 + i)) chunk 0 (λ j. 0)

-- The loop that writes the data: `n` sectors from number `k` on. The Boolean says whether all went
-- well; what is written before a failure stays written.
unfoldable pub write_data : Fs → ℕ → Bytes → ℕ → ℕ → ℕ → Fs × Bool
write_data fs lba content size k zero = (fs, true)
write_data fs lba content size k (suc n) =
    elim (write_sector fs (lba + k) (data_sector content size k)) [
      | none ↦ (fs, false)
      | some fs' ↦ write_data fs' lba content size (k + 1) n
    ]

-- the bytes of the new entry
unfoldable pub entry_byte : List ℕ → ℕ → ℕ → ℕ → ℕ → ℕ
entry_byte name type lba size j =
    if ltb j 23
    then get_or name j 0
    else if j == 23
    then type
    else if ltb j 28
    then lba / 2 ^ ((j - 24) * 8) % 256
    else size / 2 ^ ((j - 28) * 8) % 256

-- `*slot = new_entry` in the directory's sector
unfoldable pub write_entry : Fs → ℕ × ℕ → List ℕ → ℕ → ℕ → ℕ → Option Fs
write_entry fs (s, i) name type lba size = elim (read_sector fs (fs.dir_lba + s)) [
  | none ↦ none
  | some sec ↦ write_sector fs (fs.dir_lba + s) (
      each (λ k old. entry_byte name type lba size (k - i * entry_size)) entry_size (i * entry_size)
        sec)
]

-- where the data goes: in place if it fits the old sectors, else behind all files
abbrev pub target : Scanned → ℕ → ℕ
target v sectors = if v.found && leb sectors v.old_cap then v.old_lba else v.next_free

-- the end of `put_file`, after the data
unfoldable pub commit : Fs × Bool → ℕ × ℕ → List ℕ → ℕ → ℕ → ℕ → Fs × Bool
commit (fs, false) slot name type lba size = (fs, false)
commit (fs, true) slot name type lba size = elim (write_entry fs slot name type lba size) [
  | none ↦ (fs, false)
  | some fs' ↦ (fs', true)
]

-- `fs_write` from the scan on, up to the extension of the parent's listing.
unfoldable pub put_file : Fs → List ℕ → ℕ → Bytes → ℕ → Fs × Bool
put_file fs name type content size =
    let sectors = sectors_of size in
    elim (scan fs name) [
      | none ↦ (fs, false)
      | some v ↦
          if not v.has_slot
          then (fs, false)
          else commit (write_data fs (target v sectors) content size 0 sectors)
              (v.slot_sec, v.slot_i) name type (target v sectors) size
    ]

abbrev pub dir_buf_size : ℕ
dir_buf_size = 2048

-- `fs_append` up to its call of `fs_write`: the listing of the directory with a line for the path,
-- and its length. The buffer starts with what the stack holds.
unfoldable pub extended_listing : Fs → List ℕ → List ℕ → Bytes → Option (Bytes × ℕ)
extended_listing fs dir path stack = elim (fs_find fs dir) [
  | none ↦ none
  | some e ↦
      if leb dir_buf_size e.size
      then none
      else (let (buf, ok) = read_loop (e.size / 512 + 1) fs e.lba 0 e.size stack in
          if not ok || leb dir_buf_size (e.size + length path + 1)
          then none
          else some (
            write (copy_in buf e.size (λ j. get_or path j 0) (length path)) (e.size + length path)
                10,
            e.size + length path + 1,
          ))
]

abbrev pub is_some {ℓ} : {A : Type ℓ} → Option A → Bool
is_some none = false
is_some (some a) = true

abbrev pub is_empty : List ℕ → Bool
is_empty [] = true
is_empty (c ∷ cs) = false

-- the directory that a path names, if it names one
unfoldable pub has_parent : List ℕ → Bool
has_parent name = has_slash name && not (is_empty (parent_of name))

-- `fs_write`. It calls itself for the parent's listing, whose path is shorter: fuel 23 is enough for
-- every path that passes the length test. The answer of the inner call is dropped.
unfoldable pub write_fuel : ℕ → Bytes → Fs → List ℕ → ℕ → Bytes → ℕ → Fs × Bool
write_fuel zero stack fs name type content size = (fs, false)
write_fuel (suc f) stack fs name type content size =
    let parent = parent_of name in
    let (fs', done) = put_file fs name type content size in
    let listed : Fs = elim (extended_listing fs' parent name stack) [
      | none ↦ fs'
      | some (buf, len) ↦ (write_fuel f stack fs' parent fs_dir buf len).0
    ] in
    if leb max_name (length name)
    then (fs, false)
    else if has_parent name && not (is_some (fs_find fs parent))
    then (fs, false)
    else if not done
    then (fs', false)
    else if has_parent name
    then (listed, true)
    else (fs', true)

unfoldable pub fs_write : Bytes → Fs → List ℕ → ℕ → Bytes → ℕ → Fs × Bool
fs_write stack fs name type content size = write_fuel max_name stack fs name type content size

pub fs_mkdir : Bytes → Fs → List ℕ → Fs × Bool
fs_mkdir stack fs name = fs_write stack fs name fs_dir (λ j. 0) 0

unfoldable pub fs_append : Bytes → Fs → List ℕ → List ℕ → Fs × Bool
fs_append stack fs dir path = elim (extended_listing fs dir path stack) [
  | none ↦ (fs, false)
  | some (buf, len) ↦ fs_write stack fs dir fs_dir buf len
]
