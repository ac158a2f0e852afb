-- ===== src/Fs/Tests.antt =====
-- A disk with a directory of one sector, which has the file "b" of five bytes.
use lunaria_os.Base.{
  inr, inr, inr, inr, ℕ, ◌+◌, ◌≡◌, ◌⊎◌, refl, [], ◌∷◌, Bool, true, false, ◌&&◌, none, Bytes, ltb,
  ◌==◌, if◌then◌else◌, arith, Bool-cases, inl, inr,
}
use lunaria_os.Base.Table.{holds_under, holds_under_lem}
use lunaria_os.Base.Int.{pos}
use lunaria_os.Fs.{Fs, entry_at, fs_delete, fs_find, fs_read, same_name}
use lunaria_os.Fs.Delete.{is_unique}
use lunaria_os.Fs.Deleted.{IsDeleted, fs_delete_lem}
use lunaria_os.Fs.Others.{apart, read-other}
use lunaria_os.Fs.Put.{IsFile, IsSound}
use lunaria_os.Fs.Scan.{lies}
use lunaria_os.Fs.Update.{fs_write, has_slash}
use lunaria_os.Fs.Write.{fs_read-fs_write}

abbrev directory : Bytes
directory j = if j == 0 then 98 else if j == 24 then 3 else if j == 28 then 5 else 0

abbrev small_disk : Fs
small_disk = record {
  disk = λ a. if a == 2 then directory else (λ j. a + j);
  faulty = λ a. false;
  dir_lba = 2;
  dir_sectors = 1;
  data_lba = 3;
}

lies_table : holds_under 16 (λ k. lies small_disk 4 k) ≡ true
unfolding holds_under entry_at
lies_table = refl

small_disk-lies : (k : ℕ) → lies small_disk 4 k ≡ true
small_disk-lies k = elim (Bool-cases (ltb k 16)) [
  | inl e ↦ holds_under_lem 16 (λ k. lies small_disk 4 k) k lies_table (ground (arith, e))
  | inr e ↦ ground (arith, e)
]

small_disk-IsSound : IsSound small_disk 4
small_disk-IsSound = record {
  works = λ a. refl;
  directory = omega arith;
  data_area = omega arith;
  files = small_disk-lies;
}

a-IsFile : IsFile (97 ∷ []) 600 4
a-IsFile = record {
  named = λ e. omega (arith, e);
  short = omega arith;
  small = omega arith;
  room = omega arith;
}

apart_table : holds_under 16 (λ k. holds_under 16 (λ l. apart small_disk k l)) ≡ true
unfolding holds_under apart entry_at
apart_table = refl

-- a test on two slots, from a table of the 16 slots of the directory
all_pairs :
    (p : ℕ → ℕ → Bool)
    → holds_under 16 (λ k. holds_under 16 (p k)) ≡ true
    → ((k l : ℕ) → (ltb k 16 && ltb l 16) ≡ false → p k l ≡ true)
    → (k l : ℕ) → p k l ≡ true
all_pairs p table outside k l = elim (Bool-cases (ltb k 16 && ltb l 16)) [
  | inl e ↦
      holds_under_lem 16 (p k) l
        (holds_under_lem 16 (λ k. holds_under 16 (p k)) k table (ground (arith, e)))
        (ground (arith, e))
  | inr e ↦ outside k l e
]

small_disk-apart : (k l : ℕ) → apart small_disk k l ≡ true
unfolding apart
small_disk-apart = all_pairs (apart small_disk) apart_table (λ k l e. ground (arith, e))

unique_table : holds_under 16 (λ k. holds_under 16 (λ l. is_unique small_disk (98 ∷ []) k l)) ≡ true
unfolding holds_under is_unique entry_at same_name
unique_table = refl

small_disk_unique : (k l : ℕ) → is_unique small_disk (98 ∷ []) k l ≡ true
unfolding is_unique
small_disk_unique =
    all_pairs (is_unique small_disk (98 ∷ [])) unique_table (λ k l e. ground (arith, e))

fs_read-fs_write_example :
    (fs' : Fs) × (out : Bytes) × (fs_write directory small_disk (97 ∷ []) 0 (λ j. j) 600
      ≡ (fs', true))
    × (fs_read fs' (97 ∷ []) directory 1024 ≡ (out, pos 600))
    × ((j : ℕ) → out j ≡ (if ltb j 600 then j else directory j))
unfolding entry_at same_name has_slash
fs_read-fs_write_example =
    fs_read-fs_write directory small_disk (97 ∷ []) 0 (λ j. j) 600 4 1 1024 directory
      small_disk-IsSound a-IsFile refl refl (omega arith) (omega arith)

read-other_example :
    (fs' : Fs) × (fs_write directory small_disk (97 ∷ []) 0 (λ j. j) 600 ≡ (fs', true))
    × (fs_read fs' (98 ∷ []) directory 1024 ≡ fs_read small_disk (98 ∷ []) directory 1024)
unfolding entry_at same_name has_slash
read-other_example =
    read-other directory small_disk (97 ∷ []) 0 (λ j. j) 600 4 1 1024 (98 ∷ []) directory
      small_disk-IsSound small_disk-apart a-IsFile refl refl refl refl (omega arith)
      (λ e. ground (arith, e))

fs_delete_lem_example :
    ((fs' : Fs) × IsDeleted small_disk (98 ∷ []) (97 ∷ []) directory 1024 fs')
    ⊎ ((fs_find small_disk (98 ∷ []) ≡ none) × (fs_delete small_disk (98 ∷ []) ≡ none))
fs_delete_lem_example =
    fs_delete_lem small_disk (98 ∷ []) (97 ∷ []) 4 directory 1024 small_disk-IsSound (omega arith)
      (omega arith) (omega arith) small_disk_unique refl refl (λ e. ground (arith, e))
