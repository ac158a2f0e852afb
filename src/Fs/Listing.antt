-- ===== src/Fs/Listing.antt =====
-- `fs_mount` of src/drivers/fs.c, and `fs_ls_buf` for a named directory: its listing without the
-- directory's own path at the start of each line.
use lunaria_os.Base.{
  true, ℕ, zero, suc, ◌+◌, ◌-◌, ◌/◌, ◌%◌, ◌^◌, List, [], ◌∷◌, Bool, false, Option, none, some,
  Bytes, write, length, ltb, ◌==◌, if◌then◌else◌,
}
use lunaria_os.Base.Int.{ℤ, negsuc}
use lunaria_os.Fs.{int_of, Fs, FileEntry, read_sector, word_at, same_name}

abbrev pub super_lba : ℕ
super_lba = 128

-- "LUNFS1"
abbrev pub magic : List ℕ
magic = b'L' ∷ b'U' ∷ b'N' ∷ b'F' ∷ b'S' ∷ b'1' ∷ []

-- `struct superblock` is read before the test of its magic.
unfoldable pub load_super : Fs → Option Bytes → Fs × Bool
load_super fs none = (fs, false)
load_super fs (some sec) = (
  record fs { dir_lba = word_at sec 8; dir_sectors = word_at sec 12; data_lba = word_at sec 16 },
  same_name sec 0 magic,
)

unfoldable pub fs_mount : Fs → Fs × Bool
fs_mount fs = load_super fs (read_sector fs super_lba)

-- the variables of the loop, with the caller's buffer
pub record Out : Type 0 where
  pub o : ℕ
  pub skip_left : ℕ
  pub buf : Bytes

-- The body of the inner loop. The bound is an unsigned subtraction.
unfoldable pub ls_byte : ℕ → ℕ → ℕ → Out → Out
ls_byte max skip c v =
    let fits = ltb v.o ((max + 2 ^ 32 - 1) % 2 ^ 32) in
    let kept : Out = record v {
      o = if fits then v.o + 1 else v.o;
      buf = if fits then write v.buf v.o c else v.buf;
      skip_left = if c == 10 then skip else v.skip_left;
    } in
    if ltb 0 v.skip_left then record v { skip_left = v.skip_left - 1 } else kept

unfoldable pub ls_bytes : ℕ → ℕ → Bytes → ℕ → ℕ → Out → Out
ls_bytes max skip sec k zero v = v
ls_bytes max skip sec k (suc n) v = ls_bytes max skip sec (k + 1) n (ls_byte max skip (sec k) v)

-- The loop over the sectors of the directory, with a round of fuel for each. The Boolean says whether all
-- could be read; `none` is a loop that does not end.
unfoldable pub ls_sectors : ℕ → Fs → ℕ → ℕ → ℕ → ℕ → Out → Option (Out × Bool)
ls_sectors zero fs max skip lba remaining v = if remaining == 0 then some (v, true) else none
ls_sectors (suc f) fs max skip lba remaining v =
    let n = if ltb remaining 512 then remaining else 512 in
    let rest : Option (Out × Bool) = elim (read_sector fs lba) [
      | none ↦ some (v, false)
      | some sec ↦ ls_sectors f fs max skip (lba + 1) (remaining - n) (ls_bytes max skip sec 0 n v)
    ] in
    if remaining == 0 then some (v, true) else rest

-- `buf[o] = '\0'` and the length, or -1 with the buffer as it is then
unfoldable pub end_listing : Out × Bool → Bytes × ℤ
end_listing (v, false) = (v.buf, negsuc 0)
end_listing (v, true) = (write v.buf v.o 0, int_of v.o)

-- `fs_ls_buf` for a named directory that `fs_find` found, or not: the caller's buffer and the answer
unfoldable pub ls_buf_dir : Fs → List ℕ → Bytes → ℕ → Option FileEntry → Option (Bytes × ℤ)
ls_buf_dir fs name buf max none = some (buf, negsuc 0)
ls_buf_dir fs name buf max (some e) =
    let skip = length name + 1 in
    elim (ls_sectors (e.size / 512 + 1) fs max skip e.lba e.size
      (record { o = 0; skip_left = skip; buf = buf })) [
        | none ↦ none
        | some r ↦ some (end_listing r)
      ]
