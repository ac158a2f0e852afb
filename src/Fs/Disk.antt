-- ===== src/Fs/Disk.antt =====
-- The loops of src/drivers/fs.c over the sectors of a file, on a disk with no faulty sector.
use lunaria_os.Base.{
  ℕ, zero, suc, ◌+◌, ◌-◌, ◌*◌, ◌/◌, ◌%◌, ◌^◌, ◌<◌, ◌≤◌, ◌≡◌, ◌⊎◌, refl, ap, ◌∙◌, true, false, ◌||◌,
  Bytes, each_lem, in_range, ltb, ◌==◌, if◌then◌else◌, arith,
}
use lunaria_os.Fs.{Fs, copy_in, read_loop}
use lunaria_os.Fs.Update.{data_sector, write_data}

-- the disk after a write of a sector, and after the loop of `fs_write` over the data
abbrev pub put : (ℕ → Bytes) → ℕ → Bytes → ℕ → Bytes
put disk a sec k = if k == a then sec else disk k

unfoldable pub placed : Bytes → ℕ → ℕ → ℕ → ℕ → (ℕ → Bytes) → ℕ → Bytes
placed content size lba k zero disk = disk
placed content size lba k (suc n) disk =
    placed content size lba (k + 1) n (put disk ((lba + k) % 2 ^ 28) (data_sector content size k))

pub write_data_lem :
    (content : Bytes) (size lba k n : ℕ) (fs : Fs)
    → ((a : ℕ) → fs.faulty a ≡ false)
    → write_data fs lba content size k n
      ≡ (record fs { disk = placed content size lba k n fs.disk }, true)
unfolding write_data placed
write_data_lem content size lba k zero fs ok = refl
write_data_lem content size lba k (suc n) fs ok = ground (
  arith,
  ok ((lba + k) % 2 ^ 28),
  write_data_lem content size lba (k + 1) n
      (record fs { disk = put fs.disk ((lba + k) % 2 ^ 28) (data_sector content size k) }) ok,
)

-- Sectors of the file hold its data, and the others what they held.
pub placed_lem :
    (content : Bytes) (size lba k n : ℕ) (disk : ℕ → Bytes) (a j : ℕ)
    → lba + k + n ≤ 2 ^ 28
    → placed content size lba k n disk a j ≡ (
        if in_range (lba + k) (lba + k + n) a
        then data_sector content size (a - lba) j
        else disk a j)
unfolding placed
placed_lem content size lba k zero disk a j h = ground arith
placed_lem content size lba k (suc n) disk a j h = ground (
  arith,
  placed_lem content size lba (k + 1) n (put disk ((lba + k) % 2 ^ 28) (data_sector content size k))
      a j (omega arith),
  ap (λ (t : ℕ). data_sector content size t j) (here k),
)
  where
    here : (k : ℕ) → lba + k - lba ≡ k
    here k = omega arith

-- The bytes of a data sector.
pub data_sector_lem :
    (content : Bytes) (size k j : ℕ)
    → j < 512
    → data_sector content size k j ≡ (if ltb (k * 512 + j) size then content (k * 512 + j) else 0)
unfolding data_sector
data_sector_lem content size k j h = ground (
  arith,
  each_lem (λ i old. content (k * 512 + i)) 512 0 (λ j. 0) j,
  each_lem (λ i old. content (k * 512 + i)) (size - k * 512) 0 (λ j. 0) j,
)

pub copy_in_lem :
    (buf src : Bytes) (off n j : ℕ)
    → copy_in buf off src n j ≡ (if in_range off (off + n) j then src (j - off) else buf j)
unfolding copy_in
copy_in_lem buf src off n j = each_lem (λ i old. src (i - off)) n off buf j

-- the bytes that a round of the reading loop takes
abbrev pub chunk : ℕ → ℕ
chunk remaining = if ltb remaining 512 then remaining else 512

pub chunk_lem : (r : ℕ) → (chunk r ≤ r) × ((chunk r ≡ 512) ⊎ (chunk r ≡ r)) × (chunk r ≤ 512)
chunk_lem r = (ground arith, ground arith, ground arith)

-- The bytes that a round copies are those of the file.
held_at :
    (disk : ℕ → Bytes) (content : Bytes) (lba off stop j : ℕ)
    → ((k j : ℕ)
        → j < 512
        → k * 512 + j < stop
        → disk ((lba + k) % 2 ^ 28) j ≡ content (k * 512 + j))
    → off % 512 ≡ 0
    → off ≤ j
    → j < off + 512
    → j < stop
    → disk ((lba + off / 512) % 2 ^ 28) (j - off) ≡ content j
held_at disk content lba off stop j held al lo hi lt =
    held (off / 512) (j - off) (omega arith) (omega arith) ∙ ap content (omega arith)

-- The loop that reads a file ends, with the file's bytes in the buffer.
pub read_loop_lem :
    (f : ℕ) (fs : Fs) (lba off remaining : ℕ) (buf : Bytes) (content : Bytes)
    → ((a : ℕ) → fs.faulty a ≡ false)
    → ((k j : ℕ)
        → j < 512
        → k * 512 + j < off + remaining
        → fs.disk ((lba + k) % 2 ^ 28) j ≡ content (k * 512 + j))
    → ((off % 512 == 0) || (remaining == 0)) ≡ true
    → remaining ≤ f * 512
    → (out : Bytes) × (read_loop f fs lba off remaining buf ≡ (out, true))
      × ((j : ℕ) → out j ≡ (if in_range off (off + remaining) j then content j else buf j))
unfolding read_loop
read_loop_lem zero fs lba off remaining buf content ok held al fuel =
    (buf, ground (arith, fuel), λ j. ground (arith, fuel))
read_loop_lem (suc f) fs lba off zero buf content ok held al fuel = (buf, refl, λ j. ground arith)
read_loop_lem (suc f) fs lba off (suc r) buf content ok held al fuel =
    let n = chunk (suc r) in
    let sec = fs.disk ((lba + off / 512) % 2 ^ 28) in
    let (le, dec, small) = chunk_lem (suc r) in
    let (out, eq, bytes) =
      read_loop_lem f fs lba (off + n) (suc r - n) (copy_in buf off sec n) content ok
        (λ k j lt le'. held k j lt (omega (arith, le', le))) (ground (arith, al, dec))
        (ground (arith, fuel, dec, le)) in
    (
      out,
      ground (arith, ok ((lba + off / 512) % 2 ^ 28), eq),
      λ j. ground (
        arith,
        bytes j,
        copy_in_lem buf sec off n j,
        held_at fs.disk content lba off (off + suc r) j held (ground (arith, al)),
        le,
        dec,
        small,
      ),
    )
