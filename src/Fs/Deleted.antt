-- ===== src/Fs/Deleted.antt =====
-- `fs_delete` against lookups: the name is gone, and the other files read as before.
use lunaria_os.Base.{
  ==_iff, inr, refl, sym, Option-cases, inl, Bool-cases, arith, ◌∙◌, ◌⊎◌, ap, ◌<◌, ◌≢◌, ◌≡◌, ◌≤◌, ℕ,
  ◌+◌, ◌*◌, ◌%◌, ◌^◌, List, true, false, not, Option, none, some, Bytes, length, ◌==◌,
  if◌then◌else◌,
}
use lunaria_os.Fs.{FileEntry, Fs, fs_delete, fs_find, fs_read, sectors_of}
use lunaria_os.Fs.Delete.{
  delete_sector_lem, freed, freed-SameEntry, freed-is_named, freed_of, is_unique,
}
use lunaria_os.Fs.Entry.{
  entry_of, fs_find_lem, is_named, search, search_cong, search_miss, slot_entry,
}
use lunaria_os.Fs.Lookup.{found_slot, fs_read-slot, read_at, read_at-same}
use lunaria_os.Fs.Names.{is_text, same_name_unique}
use lunaria_os.Fs.Put.{IsSound}

-- After the deletion of the one slot with the name there is none.
find-freed :
    (fs : Fs) (name : List ℕ) (k : ℕ)
    → ((a : ℕ) → fs.faulty a ≡ false)
    → fs.dir_lba + fs.dir_sectors ≤ 2 ^ 28
    → length name < 23
    → ((k l : ℕ) → is_unique fs name k l ≡ true)
    → k < fs.dir_sectors * 16
    → is_named fs name k ≡ true
    → fs_find (freed fs k) name ≡ none
unfolding is_unique
find-freed fs name k ok dir short one lk hit =
    fs_find_lem (freed fs k) name (λ t. ap not (ok ((fs.dir_lba + t) % 2 ^ 28)))
    ∙ ap (entry_of (freed fs k)) (
        search_miss (is_named (freed fs k) name) 0 (fs.dir_sectors * 16) (λ j lt.
          ap (is_named (freed fs k) name) (start j)
          ∙ freed-is_named fs name k j dir short lk (omega (arith, lt))
          ∙ ground (arith, one j k, hit, lk, lt)))
  where
    start : (j : ℕ) → 0 + j ≡ j
    start j = omega arith

not_other :
    (fs : Fs) (name other : List ℕ) (k : ℕ)
    → is_text name ≡ true
    → is_text other ≡ true
    → name ≢ other
    → is_named fs name k ≡ true
    → is_named fs other k ≡ false
not_other fs name other k tn to ne hit = elim (Bool-cases (is_named fs other k)) [
  | inl h ↦ absurd (
      ne (
        same_name_unique (slot_entry fs k).name 0 name other tn to (ground (arith, hit))
          (ground (arith, h))))
  | inr h ↦ h
]

-- A lookup of another name finds the same slot.
search-freed :
    (fs : Fs) (name other : List ℕ) (k : ℕ)
    → fs.dir_lba + fs.dir_sectors ≤ 2 ^ 28
    → length other < 23
    → is_text name ≡ true
    → is_text other ≡ true
    → name ≢ other
    → k < fs.dir_sectors * 16
    → is_named fs name k ≡ true
    → search (is_named (freed fs k) other) 0 (fs.dir_sectors * 16)
      ≡ search (is_named fs other) 0 (fs.dir_sectors * 16)
search-freed fs name other k dir short tn to ne lk hit =
    search_cong _ _ 0 (fs.dir_sectors * 16)
      (λ j lt. freed-is_named fs other k j dir short lk (omega (arith, lt)) ∙ skipped j)
  where
    skipped : (j : ℕ) → (if j == k then false else is_named fs other j) ≡ is_named fs other j
    skipped j = elim (Bool-cases (j == k)) [
      | inl e ↦ ground (
        arith,
        e,
        not_other fs name other k tn to ne hit,
        ap (is_named fs other) ((==_iff j k).0 e),
      )
      | inr e ↦ ground (arith, e)
    ]

-- A file of another name reads the same.
read_at-freed :
    (fs : Fs) (other : List ℕ) (limit k : ℕ) (buf : Bytes) (max : ℕ) (o : Option ℕ)
    → IsSound fs limit
    → limit ≤ 2 ^ 28
    → k < fs.dir_sectors * 16
    → is_named fs other k ≡ false
    → search (is_named fs other) 0 (fs.dir_sectors * 16) ≡ o
    → read_at (freed fs k) buf max o ≡ read_at fs buf max o
unfolding read_at
read_at-freed fs other limit k buf max none so small lk old e = refl
read_at-freed fs other limit k buf max (some l) so small lk old e =
    let (hit, used) = found_slot fs other (fs.dir_sectors * 16) l e in
    let inside : l < fs.dir_sectors * 16 = ground (arith, used) in
    let ne : l ≢ k = λ same. ground (arith, old, hit, ap (is_named fs other) same) in
    let lies_l = so.files l in
    let low : fs.data_lba ≤ (slot_entry fs l).lba = ground (arith, lies_l, used) in
    let high : (slot_entry fs l).lba + sectors_of (slot_entry fs l).size ≤ limit =
      ground (arith, lies_l, used) in
    read_at-same fs (freed fs k) buf max l so.works so.works
      (freed-SameEntry fs k l (omega (arith, so.directory, so.data_area, small)) lk inside ne)
      (ground (arith, lies_l, used))
      (λ a lt. ground (arith, low, high, lt, so.directory, lk, small))

-- The slot behind the answer of a lookup.
find_slot :
    (fs : Fs) (name : List ℕ)
    → ((a : ℕ) → fs.faulty a ≡ false)
    → (o : Option ℕ) → search (is_named fs name) 0 (fs.dir_sectors * 16) ≡ o
    → fs_find fs name ≡ entry_of fs o
find_slot fs name ok o e =
    fs_find_lem fs name (λ t. ap not (ok ((fs.dir_lba + t) % 2 ^ 28))) ∙ ap (entry_of fs) e

-- What a deletion of the file with `name` does to a lookup of that name and to a file `other`.
pub record IsDeleted (fs : Fs) (name other : List ℕ) (buf : Bytes) (max : ℕ) (fs' : Fs)
    : Type 0 where
  pub found : (e : FileEntry) × (fs_find fs name ≡ some e)
  pub deleted : fs_delete fs name ≡ some fs'
  pub gone : fs_find fs' name ≡ none
  pub kept : fs_read fs' other buf max ≡ fs_read fs other buf max

delete-slot :
    (fs : Fs) (name other : List ℕ) (limit k : ℕ) (buf : Bytes) (max : ℕ)
    → IsSound fs limit
    → limit ≤ 2 ^ 28
    → length name < 23
    → length other < 23
    → ((k l : ℕ) → is_unique fs name k l ≡ true)
    → is_text name ≡ true
    → is_text other ≡ true
    → name ≢ other
    → search (is_named fs name) 0 (fs.dir_sectors * 16) ≡ some k
    → IsDeleted fs name other buf max (freed fs k)
unfolding fs_delete
delete-slot fs name other limit k buf max so small short short' one tn to ne e =
    let (hit, used) = found_slot fs name (fs.dir_sectors * 16) k e in
    let inside : k < fs.dir_sectors * 16 = ground (arith, used) in
    let dir : fs.dir_lba + fs.dir_sectors ≤ 2 ^ 28 =
      omega (arith, so.directory, so.data_area, small) in
    record {
      found = (slot_entry fs k, find_slot fs name so.works (some k) e);
      deleted = delete_sector_lem fs name 0 fs.dir_sectors so.works ∙ ap (freed_of fs) e;
      gone = find-freed fs name k so.works dir short one inside hit;
      kept =
          fs_read-slot (freed fs k) other buf max so.works
          ∙ ap (read_at (freed fs k) buf max)
              (search-freed fs name other k dir short' tn to ne inside hit)
          ∙ read_at-freed fs other limit k buf max _ so small inside
              (not_other fs name other k tn to ne hit) refl
          ∙ sym (fs_read-slot fs other buf max so.works);
    }

-- On a working disk whose files lie between the directory and `limit`, with at most one entry of
-- the name: if `fs_find` finds the name, `fs_delete` succeeds, afterwards `fs_find` finds the name no
-- more, and `fs_read` of any other name answers the same as before; if not, `fs_delete` answers -1.
pub fs_delete_lem :
    (fs : Fs) (name other : List ℕ) (limit : ℕ) (buf : Bytes) (max : ℕ)
    → IsSound fs limit
    → limit ≤ 2 ^ 28
    → length name < 23
    → length other < 23
    → ((k l : ℕ) → is_unique fs name k l ≡ true)
    → is_text name ≡ true
    → is_text other ≡ true
    → name ≢ other
    → ((fs' : Fs) × IsDeleted fs name other buf max fs')
      ⊎ ((fs_find fs name ≡ none) × (fs_delete fs name ≡ none))
unfolding fs_delete
fs_delete_lem fs name other limit buf max so small short short' one tn to ne =
    elim (Option-cases (search (is_named fs name) 0 (fs.dir_sectors * 16))) [
      | inl e ↦ inr (
        find_slot fs name so.works none e,
        delete_sector_lem fs name 0 fs.dir_sectors so.works ∙ ap (freed_of fs) e,
      )
      | inr (k, e) ↦ inl (
        freed fs k,
        delete-slot fs name other limit k buf max so small short short' one tn to ne e,
      )
    ]
