-- ===== src/Fs/Stored.antt =====
-- What `*slot = new_entry` leaves in a sector of the directory: the new entry reads back, and the
-- other entries stay.
use lunaria_os.Base.{
  ℕ, ◌+◌, ◌-◌, ◌*◌, ◌^◌, ◌<◌, ◌≡◌, ◌≢◌, refl, ap, sym, ◌∙◌, List, true, false, Bytes, each,
  each_lem, in_range, get_or, length, arith,
}
use lunaria_os.Fs.{FileEntry, entry_at, entry_size, same_name, word_at}
use lunaria_os.Fs.Names.{same_name_lem}
use lunaria_os.Fs.Update.{entry_byte}

-- the entries at two places of two sectors as far as a lookup reads them
pub record SameEntry (e f : FileEntry) : Type 0 where
  pub name : (j : ℕ) → j < 23 → e.name j ≡ f.name j
  pub at_lba : e.lba ≡ f.lba
  pub of_size : e.size ≡ f.size

abbrev pub stored : Bytes → ℕ → List ℕ → ℕ → ℕ → ℕ → Bytes
stored sec i name type lba size =
    each (λ k old. entry_byte name type lba size (k - i * entry_size)) entry_size (i * entry_size)
      sec

stored_at :
    (sec : Bytes) (i : ℕ) (name : List ℕ) (type lba size j : ℕ)
    → j < 32
    → stored sec i name type lba size (i * 32 + j) ≡ entry_byte name type lba size j
stored_at sec i name type lba size j h = ground (
  arith,
  each_lem (λ k old. entry_byte name type lba size (k - i * 32)) 32 (i * 32) sec (i * 32 + j),
  ap (entry_byte name type lba size) (cancel j),
)
  where
    cancel : (j : ℕ) → i * 32 + j - i * 32 ≡ j
    cancel j = omega arith

pub stored_elsewhere :
    (sec : Bytes) (i : ℕ) (name : List ℕ) (type lba size i' j : ℕ)
    → j < 32
    → i' ≢ i
    → stored sec i name type lba size (i' * 32 + j) ≡ sec (i' * 32 + j)
stored_elsewhere sec i name type lba size i' j h ne = ground (
  arith,
  each_lem (λ k old. entry_byte name type lba size (k - i * 32)) 32 (i * 32) sec (i' * 32 + j),
  apart,
)
  where
    apart : in_range (i * 32) (i * 32 + 32) (i' * 32 + j) ≡ false
    apart = ground (arith, ne)

-- A word of four bytes that agree.
word_at-cong :
    (sec : Bytes) (f : ℕ → ℕ) (off d : ℕ)
    → ((j : ℕ) → j < 32 → sec (off + j) ≡ f j)
    → d + 3 < 32
    → word_at sec (off + d) ≡ word_at f d
word_at-cong sec f off d h lt = ground (
  arith,
  h d (omega arith),
  h (d + 1) (omega arith),
  h (d + 2) (omega arith),
  h (d + 3) (omega arith),
  ap sec (shift 1),
  ap sec (shift 2),
  ap sec (shift 3),
)
  where
    shift : (k : ℕ) → off + d + k ≡ off + (d + k)
    shift k = omega arith

entry_at-cong :
    (sec : Bytes) (f : ℕ → ℕ) (off : ℕ)
    → ((j : ℕ) → j < 32 → sec (off + j) ≡ f j)
    → SameEntry (entry_at sec off) (entry_at f 0)
unfolding entry_at
entry_at-cong sec f off h = record {
  name = λ j lt. h j (omega arith) ∙ ap f (start j);
  at_lba = word_at-cong sec f off 24 h (omega arith);
  of_size = word_at-cong sec f off 28 h (omega arith);
}
  where
    start : (j : ℕ) → j ≡ 0 + j
    start j = omega arith

-- Entries at the same place of two sectors that agree there.
pub entry_at-both :
    (sec sec' : Bytes) (off : ℕ)
    → ((j : ℕ) → j < 32 → sec (off + j) ≡ sec' (off + j))
    → SameEntry (entry_at sec off) (entry_at sec' off)
entry_at-both sec sec' off h =
    let here = entry_at-cong sec (λ j. sec' (off + j)) off h in
    let there = entry_at-cong sec' (λ j. sec' (off + j)) off (λ j lt. refl) in
    record {
      name = λ j lt. here.name j lt ∙ sym (there.name j lt);
      at_lba = here.at_lba ∙ sym there.at_lba;
      of_size = here.of_size ∙ sym there.of_size;
    }

-- The bytes of a word give it back.
lba_word :
    (name : List ℕ) (type lba size : ℕ)
    → lba < 2 ^ 32
    → (entry_at (entry_byte name type lba size) 0).lba ≡ lba
unfolding entry_byte entry_at
lba_word name type lba size h = omega arith

size_word :
    (name : List ℕ) (type lba size : ℕ)
    → size < 2 ^ 32
    → (entry_at (entry_byte name type lba size) 0).size ≡ size
unfolding entry_byte entry_at
size_word name type lba size h = omega arith

name_byte :
    (name : List ℕ) (type lba size j : ℕ)
    → j < 23
    → entry_byte name type lba size (0 + j) ≡ get_or name j 0
unfolding entry_byte
name_byte name type lba size j h = ground (arith, ap (λ (t : ℕ). get_or name t 0) (start j))
  where
    start : (j : ℕ) → j ≡ 0 + j
    start j = omega arith

-- The new entry reads back.
pub record IsStored (e : FileEntry) (name : List ℕ) (lba size : ℕ) : Type 0 where
  pub matches : same_name e.name 0 name ≡ true
  pub first : e.name 0 ≡ get_or name 0 0
  pub at_lba : e.lba ≡ lba
  pub of_size : e.size ≡ size

pub stored-IsStored :
    (sec : Bytes) (i : ℕ) (name : List ℕ) (type lba size : ℕ)
    → length name < 23
    → lba < 2 ^ 32
    → size < 2 ^ 32
    → IsStored (entry_at (stored sec i name type lba size) (i * 32)) name lba size
unfolding entry_at
stored-IsStored sec i name type lba size hn hl hs =
    let same =
      entry_at-cong (stored sec i name type lba size) (entry_byte name type lba size) (i * 32)
        (stored_at sec i name type lba size) in
    let name_of : (j : ℕ)
        → j < 23
        → (entry_at (stored sec i name type lba size) (i * 32)).name j ≡ get_or name j 0 =
      λ j lt. same.name j lt ∙ name_byte name type lba size j lt in
    record {
      matches = same_name_lem _ 0 name (λ j le.
          ap (entry_at (stored sec i name type lba size) (i * 32)).name (start j)
          ∙ name_of j (omega arith));
      first = name_of 0 (omega arith);
      at_lba = same.at_lba ∙ lba_word name type lba size hl;
      of_size = same.of_size ∙ size_word name type lba size hs;
    }
  where
    start : (j : ℕ) → 0 + j ≡ j
    start j = omega arith

-- The other entries of the sector stay.
pub stored-others :
    (sec : Bytes) (i : ℕ) (name : List ℕ) (type lba size i' : ℕ)
    → i' ≢ i
    → SameEntry (entry_at (stored sec i name type lba size) (i' * 32)) (entry_at sec (i' * 32))
unfolding entry_at
stored-others sec i name type lba size i' ne =
    entry_at-both (stored sec i name type lba size) sec (i' * 32)
      (λ j lt. stored_elsewhere sec i name type lba size i' j lt ne)
