-- ===== src/Fs/Entry.antt =====
-- Directory entries: the numbered slots of the directory, the search for a name as a search over
-- slot numbers, and what a stored entry reads back as.
use mathlib.Core.Path.{ap₂}
use lunaria_os.Base.{
  inr, inl, Bool-cases, ℕ, zero, suc, ◌+◌, ◌*◌, ◌/◌, ◌%◌, ◌^◌, ◌<◌, ◌≤◌, ◌≡◌, refl, ap, sym, ◌∙◌,
  List, Bool, true, false, not, ◌&&◌, Option, none, some, Bytes, ◌==◌, if◌then◌else◌, arith,
}
use lunaria_os.Fs.{FileEntry, Fs, entry_at, entry_size, find_entry, find_sector, fs_find, same_name}

-- The slot with a number, 16 to a sector.
abbrev pub slot_sector : Fs → ℕ → Bytes
slot_sector fs s = fs.disk ((fs.dir_lba + s) % 2 ^ 28)

abbrev pub slot_entry : Fs → ℕ → FileEntry
slot_entry fs k = entry_at (slot_sector fs (k / 16)) (k % 16 * entry_size)

-- whether a slot has an entry, and one with that name
abbrev pub is_used : Fs → ℕ → Bool
is_used fs k = not ((slot_entry fs k).name 0 == 0)

abbrev pub is_named : Fs → List ℕ → ℕ → Bool
is_named fs name k = is_used fs k && same_name (slot_entry fs k).name 0 name

-- the first of `n` numbers from `k` on with a property
unfoldable pub search : (ℕ → Bool) → ℕ → ℕ → Option ℕ
search p k zero = none
search p k (suc n) = let rest = search p (k + 1) n in if p k then some k else rest

pub search_hit :
    (p : ℕ → Bool) (k n i : ℕ)
    → i < n
    → p (k + i) ≡ true
    → ((j : ℕ) → j < i → p (k + j) ≡ false)
    → search p k n ≡ some (k + i)
unfolding search
search_hit p k zero i lt hit miss = absurd (omega arith)
search_hit p k (suc n) zero lt hit miss = ground arith
search_hit p k (suc n) (suc i) lt hit miss = ground (
  arith,
  miss 0 (omega arith),
  search_hit p (k + 1) n i (omega arith) (ap p (shift i) ∙ hit)
      (λ j lt. ap p (shift j) ∙ miss (suc j) (omega arith)),
)
  where
    shift : (i : ℕ) → k + 1 + i ≡ k + suc i
    shift i = omega arith

pub search_first :
    (p : ℕ → Bool) (n i : ℕ)
    → i < n
    → p i ≡ true
    → ((j : ℕ) → j < i → p j ≡ false)
    → search p 0 n ≡ some i
search_first p n i lt hit miss =
    search_hit p 0 n i lt (ap p (start i) ∙ hit) (λ j lt. ap p (start j) ∙ miss j lt)
    ∙ ap some (start i)
  where
    start : (j : ℕ) → 0 + j ≡ j
    start j = omega arith

pub search_miss :
    (p : ℕ → Bool) (k n : ℕ) → ((j : ℕ) → j < n → p (k + j) ≡ false) → search p k n ≡ none
unfolding search
search_miss p k zero miss = refl
search_miss p k (suc n) miss = ground (
  arith,
  miss 0 (omega arith),
  search_miss p (k + 1) n (λ j lt. ap p (shift j) ∙ miss (suc j) (omega arith)),
)
  where
    shift : (i : ℕ) → k + 1 + i ≡ k + suc i
    shift i = omega arith

pub search_cong :
    (p q : ℕ → Bool) (k n : ℕ) → ((j : ℕ) → j < k + n → p j ≡ q j) → search p k n ≡ search q k n
unfolding search
search_cong p q k zero h = refl
search_cong p q k (suc n) h =
    ground (arith, h k (omega arith), search_cong p q (k + 1) n (λ j lt. h j (omega (arith, lt))))

pub search_sound :
    (p : ℕ → Bool) (k n i : ℕ) → search p k n ≡ some i → (p i ≡ true) × (k ≤ i) × (i < k + n)
unfolding search
search_sound p k zero i h = absurd (ground (arith, h))
search_sound p k (suc n) i h = elim (Bool-cases (p k)) [
  | inl e ↦
      let here : k ≡ i = ground (arith, e, h) in
      (sym (ap p here) ∙ e, omega (arith, here), omega (arith, here))
  | inr e ↦
      let (hit, le, lt) = search_sound p (k + 1) n i (ground (arith, e, h)) in
      (hit, omega (arith, le), omega (arith, lt))
]

abbrev pub or_else : Option ℕ → Option ℕ → Option ℕ
or_else none o = o
or_else (some k) o = some k

search_add :
    (p : ℕ → Bool) (k n m : ℕ) → search p k (n + m) ≡ or_else (search p k n) (search p (k + n) m)
unfolding search
search_add p k zero m = ap₂ (search p) (start k) (amount m)
  where
    start : (k : ℕ) → k ≡ k + 0
    start k = omega arith

    amount : (m : ℕ) → 0 + m ≡ m
    amount m = omega arith
search_add p k (suc n) m = ground (
  arith,
  search_add p (k + 1) n m,
  ap (λ (t : ℕ). search p t m) (shift n),
  ap (search p k) (grown n),
)
  where
    grown : (n : ℕ) → suc n + m ≡ suc (n + m)
    grown n = omega arith

    shift : (n : ℕ) → k + 1 + n ≡ k + suc n
    shift n = omega arith

-- the entry of an optional slot
abbrev pub entry_of : Fs → Option ℕ → Option FileEntry
entry_of fs none = none
entry_of fs (some k) = some (slot_entry fs k)

pub slot_at : (s i : ℕ) → i < 16 → ((s * 16 + i) / 16 ≡ s) × ((s * 16 + i) % 16 ≡ i)
slot_at s i h = (omega arith, omega arith)

pub slot_entry_at :
    (fs : Fs) (s i : ℕ)
    → i < 16
    → slot_entry fs (s * 16 + i) ≡ entry_at (slot_sector fs s) (i * entry_size)
slot_entry_at fs s i h =
    let (e1, e2) = slot_at s i h in
    ap₂ (λ (t u : ℕ). entry_at (slot_sector fs t) (u * entry_size)) e1 e2

find_entry_lem :
    (fs : Fs) (name : List ℕ) (s i n : ℕ)
    → i + n ≤ 16
    → find_entry (slot_sector fs s) name i n
      ≡ entry_of fs (search (is_named fs name) (s * 16 + i) n)
unfolding find_entry search
find_entry_lem fs name s i zero h = refl
find_entry_lem fs name s i (suc n) h = ground (
  arith,
  slot_entry_at fs s i (omega arith),
  ap (λ (e : FileEntry). not (e.name 0 == 0) && same_name e.name 0 name)
      (slot_entry_at fs s i (omega arith)),
  find_entry_lem fs name s (i + 1) n (omega arith),
  ap (λ (t : ℕ). search (is_named fs name) t n) (shift s i),
)
  where
    shift : (s i : ℕ) → s * 16 + (i + 1) ≡ s * 16 + i + 1
    shift s i = omega arith

-- The directory is readable.
abbrev pub is_readable : Fs → ℕ → Bool
is_readable fs s = not (fs.faulty ((fs.dir_lba + s) % 2 ^ 28))

pub search_sector :
    (p : ℕ → Bool) (s n : ℕ)
    → search p (s * 16) (suc n * 16)
      ≡ or_else (search p (s * 16 + 0) 16) (search p ((s + 1) * 16) (n * 16))
search_sector p s n =
    ap (search p (s * 16)) (ends n)
    ∙ search_add p (s * 16) 16 (n * 16)
    ∙ ap₂ (λ (t u : ℕ). or_else (search p t 16) (search p u (n * 16))) (starts s) (next s)
  where
    ends : (n : ℕ) → suc n * 16 ≡ 16 + n * 16
    ends n = omega arith

    starts : (s : ℕ) → s * 16 ≡ s * 16 + 0
    starts s = omega arith

    next : (s : ℕ) → s * 16 + 16 ≡ (s + 1) * 16
    next s = omega arith

pub entry_of-or_else :
    (fs : Fs) (o o' : Option ℕ)
    → entry_of fs (or_else o o')
      ≡ (elim (entry_of fs o) [ none ↦ entry_of fs o' | some e ↦ some e ])
entry_of-or_else fs none o' = refl
entry_of-or_else fs (some k) o' = refl

find_sector_lem :
    (fs : Fs) (name : List ℕ) (s n : ℕ)
    → ((t : ℕ) → is_readable fs t ≡ true)
    → find_sector fs name s n ≡ entry_of fs (search (is_named fs name) (s * 16) (n * 16))
unfolding find_sector search
find_sector_lem fs name s zero h = refl
find_sector_lem fs name s (suc n) h =
    ground
      (arith, h s, find_entry_lem fs name s 0 16 (omega arith), find_sector_lem fs name (s + 1) n h)
    ∙ sym (entry_of-or_else fs (search (is_named fs name) (s * 16 + 0) 16) _)
    ∙ ap (entry_of fs) (sym (search_sector (is_named fs name) s n))

pub fs_find_lem :
    (fs : Fs) (name : List ℕ)
    → ((t : ℕ) → is_readable fs t ≡ true)
    → fs_find fs name ≡ entry_of fs (search (is_named fs name) 0 (fs.dir_sectors * 16))
unfolding fs_find
fs_find_lem fs name h = find_sector_lem fs name 0 fs.dir_sectors h
