-- ===== src/Fs/Scan.antt =====
-- The scan of the directory in `fs_write`: which slot it chooses, and that the first free sector is
-- behind all files.
use lunaria_os.Base.{
  ℕ, zero, suc, ◌+◌, ◌*◌, ◌^◌, ◌<◌, ◌≤◌, ◌≡◌, refl, ap, List, Bool, true, not, ◌&&◌, ◌||◌, some,
  Bytes, ltb, leb, ◌==◌, arith,
}
use lunaria_os.Fs.{FileEntry, Fs, entry_at, entry_size, same_name, sectors_of}
use lunaria_os.Fs.Entry.{is_named, is_readable, is_used, slot_entry, slot_entry_at, slot_sector}
use lunaria_os.Fs.Update.{Scanned, scan, scan_entries, scan_entry, scan_sectors}
use mathlib.Core.Path.{subst}

abbrev pub num : Scanned → ℕ
num v = v.slot_sec * 16 + v.slot_i

-- a directory as the scan sees it: which slots are used, which have the name, and where files are
pub record View : Type 0 where
  pub used : ℕ → Bool
  pub named : ℕ → Bool
  pub lba : ℕ → ℕ
  pub cap : ℕ → ℕ

-- What the scan knows behind slot `k`, at a slot `j`: the files end at or below `limit`.
pub record Upto (d : View) (start limit k j : ℕ) (v : Scanned) : Type 0 where
  pub below : (not v.has_slot || (ltb v.slot_i 16 && ltb (num v) k)) ≡ true
  pub hit : (not v.found || (v.has_slot && d.named (num v))) ≡ true
  pub old : (not v.found || ((v.old_lba == d.lba (num v)) && (v.old_cap == d.cap (num v)))) ≡ true
  pub free : ((not v.has_slot || v.found) || not (d.used (num v))) ≡ true
  pub first : (not v.found || not (ltb j (num v) && d.named j)) ≡ true
  pub missed : (v.found || not (ltb j k && d.named j)) ≡ true
  pub room : (not (ltb j k && d.used j) || leb (d.lba j + d.cap j) v.next_free) ≡ true
  pub vacant : (v.has_slot || (d.used j || leb k j)) ≡ true
  pub base : start ≤ v.next_free
  pub top : v.next_free ≤ limit

-- that a slot's entry in a sector is what the view says of it
pub record Views (d : View) (name : List ℕ) (limit k : ℕ) (e : FileEntry) : Type 0 where
  pub used : d.used k ≡ not (e.name 0 == 0)
  pub named : d.named k ≡ d.used k && same_name e.name 0 name
  pub lba : d.lba k ≡ e.lba
  pub cap : d.cap k ≡ sectors_of e.size
  pub within : (not (d.used k) || leb (d.lba k + d.cap k) limit) ≡ true

scan_entry-Upto :
    (d : View) (name : List ℕ) (sec : Bytes) (start limit s i j : ℕ) (v : Scanned)
    → i < 16
    → limit ≤ 2 ^ 28
    → Views d name limit (s * 16 + i) (entry_at sec (i * entry_size))
    → Upto d start limit (s * 16 + i) j v
    → Upto d start limit (s * 16 + (i + 1)) j (scan_entry sec name s i v)
unfolding scan_entry
scan_entry-Upto d name sec start limit s i j v lt small w h = record {
  below = ground (arith, w.used, h.below, lt);
  hit = ground (arith, w.used, w.named, h.hit, lt);
  old = ground (arith, w.used, w.named, w.lba, w.cap, h.old, lt);
  free = ground (arith, w.used, w.named, h.free, lt);
  first = ground (arith, w.used, w.named, h.first, h.missed, lt);
  missed = ground (arith, w.used, w.named, h.missed, lt);
  room = ground (arith, w.used, w.named, w.lba, w.cap, w.within, h.room, lt, small);
  vacant = ground (arith, w.used, h.vacant, lt);
  base = ground (arith, h.base);
  top = ground (arith, w.used, w.lba, w.cap, w.within, h.top, small);
}

abbrev pub view : Fs → List ℕ → View
view fs name = record {
  used = is_used fs;
  named = is_named fs name;
  lba = λ k. (slot_entry fs k).lba;
  cap = λ k. sectors_of (slot_entry fs k).size;
}

-- whether the file of a slot lies in the data area, below a limit, with a size that has sectors
abbrev pub lies : Fs → ℕ → ℕ → Bool
lies fs limit k =
    not (ltb k (fs.dir_sectors * 16) && is_used fs k)
    || (leb fs.data_lba (slot_entry fs k).lba
        && leb ((slot_entry fs k).lba + sectors_of (slot_entry fs k).size) limit
        && ltb ((slot_entry fs k).size + 511) (2 ^ 32))

view-Views :
    (fs : Fs) (name : List ℕ) (limit s i : ℕ)
    → i < 16
    → s < fs.dir_sectors
    → lies fs limit (s * 16 + i) ≡ true
    → Views (view fs name) name limit (s * 16 + i) (entry_at (slot_sector fs s) (i * entry_size))
view-Views fs name limit s i lt ls h =
    let e = slot_entry_at fs s i lt in
    record {
      used = ap (λ (e : FileEntry). not (e.name 0 == 0)) e;
      named = ap (λ (e : FileEntry). is_used fs (s * 16 + i) && same_name e.name 0 name) e;
      lba = ap (λ (e : FileEntry). e.lba) e;
      cap = ap (λ (e : FileEntry). sectors_of e.size) e;
      within = ground (arith, h, ls, lt);
    }

scan_entries-Upto :
    (fs : Fs) (name : List ℕ) (limit s i n j : ℕ) (v : Scanned)
    → i + n ≤ 16
    → limit ≤ 2 ^ 28
    → s < fs.dir_sectors
    → ((k : ℕ) → lies fs limit k ≡ true)
    → Upto (view fs name) fs.data_lba limit (s * 16 + i) j v
    → Upto
        (view fs name)
        fs.data_lba
        limit
        (s * 16 + (i + n))
        j
        (scan_entries (slot_sector fs s) name s i n v)
unfolding scan_entries
scan_entries-Upto fs name limit s i zero j v le small ls h u =
    subst (λ (k : ℕ). Upto (view fs name) fs.data_lba limit k j v) (omega arith) u
scan_entries-Upto fs name limit s i (suc n) j v le small ls h u =
    subst
      (λ (k : ℕ). Upto (view fs name) fs.data_lba limit k j (
        scan_entries (slot_sector fs s) name s (i + 1) n
          (scan_entry (slot_sector fs s) name s i v)))
      (omega arith)
      (scan_entries-Upto fs name limit s (i + 1) n j (scan_entry (slot_sector fs s) name s i v)
        (omega arith) small ls h
        (scan_entry-Upto (view fs name) name (slot_sector fs s) fs.data_lba limit s i j v
          (omega arith) small (view-Views fs name limit s i (omega arith) ls (h (s * 16 + i))) u))

scan_sectors-Upto :
    (fs : Fs) (name : List ℕ) (limit s n : ℕ) (v : Scanned)
    → s + n ≡ fs.dir_sectors
    → limit ≤ 2 ^ 28
    → ((t : ℕ) → is_readable fs t ≡ true)
    → ((k : ℕ) → lies fs limit k ≡ true)
    → ((j : ℕ) → Upto (view fs name) fs.data_lba limit (s * 16) j v)
    → (v' : Scanned) × (scan_sectors fs name s n v ≡ some v')
      × ((j : ℕ) → Upto (view fs name) fs.data_lba limit (fs.dir_sectors * 16) j v')
unfolding scan_sectors
scan_sectors-Upto fs name limit s zero v e small ok h u = (
  v,
  refl,
  λ j. subst (λ (k : ℕ). Upto (view fs name) fs.data_lba limit k j v) (omega arith) (u j),
)
scan_sectors-Upto fs name limit s (suc n) v e small ok h u =
    let next = scan_entries (slot_sector fs s) name s 0 16 v in
    let (v', eq, u') = scan_sectors-Upto fs name limit (s + 1) n next (omega arith) small ok h (λ j.
      subst (λ (k : ℕ). Upto (view fs name) fs.data_lba limit k j next) (omega arith)
        (scan_entries-Upto fs name limit s 0 16 j v (omega arith) small (omega arith) h
          (subst (λ (k : ℕ). Upto (view fs name) fs.data_lba limit k j v) (omega arith) (u j)))) in
    (v', ground (arith, ok s, eq), u')

pub scan-Upto :
    (fs : Fs) (name : List ℕ) (limit : ℕ)
    → fs.data_lba ≤ limit
    → limit ≤ 2 ^ 28
    → ((t : ℕ) → is_readable fs t ≡ true)
    → ((k : ℕ) → lies fs limit k ≡ true)
    → (v : Scanned) × (scan fs name ≡ some v)
      × ((j : ℕ) → Upto (view fs name) fs.data_lba limit (fs.dir_sectors * 16) j v)
unfolding scan
scan-Upto fs name limit le small ok h =
    scan_sectors-Upto fs name limit 0 fs.dir_sectors _ (omega arith) small ok h (λ j. record {
      below = refl;
      hit = refl;
      old = refl;
      free = refl;
      first = refl;
      missed = ground arith;
      room = ground arith;
      vacant = ground arith;
      base = omega arith;
      top = le;
    })
