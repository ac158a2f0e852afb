-- ===== src/Fs/Delete.antt =====
-- `fs_delete` frees the first slot of the name, and nothing else changes.
use lunaria_os.Base.{
  ℕ, zero, suc, ◌+◌, ◌*◌, ◌/◌, ◌%◌, ◌^◌, ◌<◌, ◌≤◌, ◌≡◌, ◌≢◌, refl, ap, sym, ◌∙◌, List, Bool, false,
  not, ◌&&◌, ◌||◌, Option, none, some, ltb, ◌==◌, if◌then◌else◌, arith, length, write, Bool-cases,
  inl, inr, ==_iff,
}
use lunaria_os.Fs.{FileEntry, Fs, delete_sector, entry_at, entry_size, find_index, same_name}
use lunaria_os.Fs.Entry.{
  is_named, is_used, or_else, search, search_sector, search_sound, slot_at, slot_entry,
  slot_entry_at, slot_sector,
}
use lunaria_os.Fs.Stored.{SameEntry, entry_at-both}
use lunaria_os.Fs.Write.{is_named-same}

-- the place in its sector of the slot that a search found
index_of : Option ℕ → Option ℕ
index_of none = none
index_of (some k) = some (k % 16)

find_index_lem :
    (fs : Fs) (name : List ℕ) (s i n : ℕ)
    → i + n ≤ 16
    → find_index (slot_sector fs s) name i n ≡ index_of (search (is_named fs name) (s * 16 + i) n)
unfolding find_index search index_of
find_index_lem fs name s i zero h = refl
find_index_lem fs name s i (suc n) h = ground (
  arith,
  (slot_at s i (omega arith)).1,
  ap (λ (e : FileEntry). not (e.name 0 == 0) && same_name e.name 0 name)
      (slot_entry_at fs s i (omega arith)),
  find_index_lem fs name s (i + 1) n (omega arith),
  ap (λ (t : ℕ). search (is_named fs name) t n) (shift s i),
)
  where
    shift : (s i : ℕ) → s * 16 + (i + 1) ≡ s * 16 + i + 1
    shift s i = omega arith

-- the disk without the entry of a slot
abbrev pub freed : Fs → ℕ → Fs
freed fs k = record fs {
  disk = λ a.
      if a == (fs.dir_lba + k / 16) % 2 ^ 28
      then write (slot_sector fs (k / 16)) (k % 16 * entry_size) 0
      else fs.disk a;
}

abbrev pub freed_of : Fs → Option ℕ → Option Fs
freed_of fs none = none
freed_of fs (some k) = some (freed fs k)

-- the disk after the write of a sector without the entry
erased : Fs → ℕ → ℕ → Option Fs
erased fs k s = some (record fs {
  disk = λ a.
      if a == (fs.dir_lba + s) % 2 ^ 28
      then write (slot_sector fs s) (k % 16 * entry_size) 0
      else fs.disk a;
})

-- A sector with the answer of the search in it.
delete_step :
    (fs : Fs) (name : List ℕ) (s n : ℕ) (o rest : Option ℕ)
    → ((a : ℕ) → fs.faulty a ≡ false)
    → search (is_named fs name) (s * 16 + 0) 16 ≡ o
    → delete_sector fs name (s + 1) n ≡ freed_of fs rest
    → delete_sector fs name s (suc n) ≡ freed_of fs (or_else o rest)
unfolding delete_sector index_of erased
delete_step fs name s n none rest ok e h =
    ground
      (arith, e, h, ok ((fs.dir_lba + s) % 2 ^ 28), find_index_lem fs name s 0 16 (omega arith))
delete_step fs name s n (some k) rest ok e h =
    let (hit, le, lt) = search_sound (is_named fs name) (s * 16 + 0) 16 k e in
    let here : s ≡ k / 16 = omega (arith, le, lt) in
    ground (
      arith,
      e,
      ok ((fs.dir_lba + s) % 2 ^ 28),
      find_index_lem fs name s 0 16 (omega arith),
      ap (erased fs k) here,
    )

pub delete_sector_lem :
    (fs : Fs) (name : List ℕ) (s n : ℕ)
    → ((a : ℕ) → fs.faulty a ≡ false)
    → delete_sector fs name s n ≡ freed_of fs (search (is_named fs name) (s * 16) (n * 16))
unfolding delete_sector search
delete_sector_lem fs name s zero ok = refl
delete_sector_lem fs name s (suc n) ok =
    delete_step fs name s n _ _ ok refl (delete_sector_lem fs name (s + 1) n ok)
    ∙ ap (freed_of fs) (sym (search_sector (is_named fs name) s n))

-- The other slots stay.
freed_byte :
    (fs : Fs) (k l j : ℕ)
    → fs.dir_lba + fs.dir_sectors ≤ 2 ^ 28
    → k < fs.dir_sectors * 16
    → l < fs.dir_sectors * 16
    → j < 32
    → l ≢ k
    → slot_sector (freed fs k) (l / 16) (l % 16 * 32 + j)
      ≡ slot_sector fs (l / 16) (l % 16 * 32 + j)
freed_byte fs k l j dir lk ll lj ne = elim (Bool-cases (l / 16 == k / 16)) [
  | inl e ↦
      let same : l / 16 ≡ k / 16 = (==_iff (l / 16) (k / 16)).0 e in
      ground (
        arith,
        same,
        apart_in k l lj ne same,
        ap (λ (t : ℕ). slot_sector fs t (l % 16 * 32 + j)) same,
      )
  | inr e ↦ ground (arith, apart_of k l dir lk ll e)
]
  where
    apart_in : (k l : ℕ) → j < 32 → l ≢ k → l / 16 ≡ k / 16 → l % 16 * 32 + j ≢ k % 16 * 32
    apart_in k l lj ne same e = ne (omega (arith, lj, same, e))

    apart_of :
        (k l : ℕ)
        → fs.dir_lba + fs.dir_sectors ≤ 2 ^ 28
        → k < fs.dir_sectors * 16
        → l < fs.dir_sectors * 16
        → (l / 16 == k / 16) ≡ false
        → (fs.dir_lba + l / 16) % 2 ^ 28 ≢ (fs.dir_lba + k / 16) % 2 ^ 28
    apart_of k l dir lk ll e = ground (arith, dir, lk, ll, e)

pub freed-SameEntry :
    (fs : Fs) (k l : ℕ)
    → fs.dir_lba + fs.dir_sectors ≤ 2 ^ 28
    → k < fs.dir_sectors * 16
    → l < fs.dir_sectors * 16
    → l ≢ k
    → SameEntry (slot_entry (freed fs k) l) (slot_entry fs l)
freed-SameEntry fs k l dir lk ll ne =
    entry_at-both (slot_sector (freed fs k) (l / 16)) (slot_sector fs (l / 16)) (l % 16 * 32)
      (λ j lj. freed_byte fs k l j dir lk ll lj ne)

pub freed_slot : (fs : Fs) (k : ℕ) → is_used (freed fs k) k ≡ false
unfolding entry_at
freed_slot fs k = ground (arith, start k)
  where
    start : (k : ℕ) → k % 16 * 32 + 0 ≡ k % 16 * 32
    start k = omega arith

-- whether two slots of the directory with the name are one
unfoldable pub is_unique : Fs → List ℕ → ℕ → ℕ → Bool
is_unique fs name k l =
    let both =
      ltb k (fs.dir_sectors * 16)
      && is_named fs name k
      && (ltb l (fs.dir_sectors * 16) && is_named fs name l) in
    not both || (k == l)

-- The slots after the deletion of slot `k`, for a name.
pub freed-is_named :
    (fs : Fs) (name : List ℕ) (k l : ℕ)
    → fs.dir_lba + fs.dir_sectors ≤ 2 ^ 28
    → length name < 23
    → k < fs.dir_sectors * 16
    → l < fs.dir_sectors * 16
    → is_named (freed fs k) name l ≡ (if l == k then false else is_named fs name l)
freed-is_named fs name k l dir short lk ll = elim (Bool-cases (l == k)) [
  | inl e ↦ ground (arith, e, freed_slot fs k, ap (is_used (freed fs k)) ((==_iff l k).0 e))
  | inr e ↦ ground (
    arith,
    e,
    is_named-same fs (freed fs k) name l short
        (freed-SameEntry fs k l dir lk ll (λ same. ground (arith, e, same))),
  )
]
