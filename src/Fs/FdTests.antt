-- ===== src/Fs/FdTests.antt =====
-- A handle open for writing, with five bytes, and a listing of a directory of one sector.
use lunaria_os.Base.{
  ℕ, ◌+◌, ◌≡◌, refl, [], ◌∷◌, true, false, some, Bytes, ltb, if◌then◌else◌, arith,
}
use lunaria_os.Base.Int.{pos}
use lunaria_os.Fs.Handles.{Files, Handle, fs_read_fd}
use lunaria_os.Base.Int.{ℤ}
use lunaria_os.Fs.Listing.{ls_buf_dir}
use lunaria_os.Fs.ListingBounds.{IsListing, ls_buf_dir_lem}
use lunaria_os.Fs.FdWrite.{fs_seek}
use lunaria_os.Fs.FdBuffer.{IsWriter, Stored, fs_write_fd-Stored, read-seek}

abbrev writer : Handle
writer = record {
  used = true;
  writable = true;
  dirty = false;
  type = 0;
  name = 97 ∷ [];
  lba = 0;
  size = 0;
  wlen = 5;
  offset = 9;
}

abbrev open_files : Files
open_files = record {
  fs = record { disk = λ a j. 0; faulty = λ a. false; dir_lba = 2; dir_sectors = 1; data_lba = 3 };
  handles = λ k. writer;
  wbuf = λ j. j + 65;
}

writer-IsWriter : IsWriter open_files 0
writer-IsWriter = record {
  index = omega arith;
  in_use = refl;
  writes = refl;
  bounded = omega arith;
}

fs_write_fd-Stored_example : (t' : Files) × Stored open_files 0 (λ j. 48) 4 7 t'
fs_write_fd-Stored_example =
    fs_write_fd-Stored open_files 0 4 7 (λ j. 48) writer-IsWriter (omega arith)

read-seek_example :
    (t1 : Files) × (t2 : Files) × (out : Bytes) × (fs_seek open_files (pos 3) 1 0 ≡ (t1, pos 1))
    × (fs_read_fd t1 (pos 3) (λ j. 0) 3 ≡ some (t2, out, pos 3))
    × ((j : ℕ) → out j ≡ (if ltb j 3 then (1 + j) + 65 else 0))
read-seek_example = read-seek open_files 0 1 3 (λ j. 0) writer-IsWriter (omega arith)

-- a directory "d" with ten bytes of listing, and a buffer of four
ls_buf_dir_lem_example :
    (r : Bytes × ℤ) × (ls_buf_dir open_files.fs
        (100 ∷ [])
        (λ j. 7)
        4
        (some (record { name = λ j. 100; type = 1; lba = 5; size = 10 }))
      ≡ some r)
    × IsListing 4 (λ j. 7) 6 r
ls_buf_dir_lem_example =
    ls_buf_dir_lem open_files.fs (100 ∷ []) (λ j. 7) 4
      (some (record { name = λ j. 100; type = 1; lba = 5; size = 10 })) 6 (omega arith)
      (omega arith)
