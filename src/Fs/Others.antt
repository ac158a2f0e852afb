-- ===== src/Fs/Others.antt =====
-- `fs_write` leaves the other files alone.
use mathlib.Core.Path.{fun_ext}
use lunaria_os.Base.{
  ℕ, ◌+◌, ◌*◌, ◌%◌, ◌^◌, ◌<◌, ◌≤◌, ◌≡◌, ◌≢◌, refl, ap, sym, ◌∙◌, List, Bool, true, false, not, ◌&&◌,
  ◌||◌, Option, none, some, Bytes, ltb, leb, ◌==◌, arith, length, in_range, Bool-cases, inl, inr,
  ==_iff,
}
use lunaria_os.Fs.{Fs, fs_read, same_name, sectors_of}
use lunaria_os.Fs.Disk.{placed_lem}
use lunaria_os.Fs.Entry.{is_named, is_used, search, search_cong, slot_entry}
use lunaria_os.Fs.Lookup.{found_slot, fs_read-slot, read_at, read_at-same}
use lunaria_os.Fs.Names.{is_text, same_name_unique}
use lunaria_os.Fs.Put.{IsFile, IsSound, after, put_file_lem}
use lunaria_os.Fs.Scan.{num}
use lunaria_os.Fs.Slots.{chosen-IsStored, others-SameEntry}
use lunaria_os.Fs.Update.{Scanned, fs_write, has_slash, target}
use lunaria_os.Fs.Write.{Chosen, fs_write-top, is_named-same, scan-Chosen, takes}

-- whether the files of two slots lie apart
unfoldable pub apart : Fs → ℕ → ℕ → Bool
apart fs k l =
    let both =
      ltb k (fs.dir_sectors * 16)
      && is_used fs k
      && (ltb l (fs.dir_sectors * 16) && is_used fs l) in
    let a = slot_entry fs k in
    let b = slot_entry fs l in
    not (both && not (k == l))
    || (leb (a.lba + sectors_of a.size) b.lba || leb (b.lba + sectors_of b.size) a.lba)

-- The scan's slot has no file of another name, before and after.
other_name :
    (fs : Fs) (name other : List ℕ) (limit size type : ℕ) (content : Bytes) (v : Scanned)
    → IsSound fs limit
    → IsFile name size limit
    → Chosen fs name limit size v
    → is_text name ≡ true
    → is_text other ≡ true
    → name ≢ other
    → (is_named fs other (num v) ≡ false)
      × (is_named (after fs v name type content size) other (num v) ≡ false)
other_name fs name other limit size type content v so f c tn to ne =
    let u = c.known 0 in
    let new = chosen-IsStored fs limit v name type content size so c.place f in
    let e = slot_entry fs (num v) in
    let e' = slot_entry (after fs v name type content size) (num v) in
    let one : (b : Bytes) → same_name b 0 name ≡ true → same_name b 0 other ≡ false = λ b h.
      elim (Bool-cases (same_name b 0 other)) [
        | inl h' ↦ absurd (ne (same_name_unique b 0 name other tn to h h'))
        | inr h' ↦ h'
      ] in
    (
      elim (Bool-cases v.found) [
        | inl h ↦
            let hit : same_name e.name 0 name ≡ true = ground (arith, h, u.hit) in
            ground (arith, one e.name hit)
        | inr h ↦ ground (arith, h, u.free, c.slot)
      ],
      ground (arith, one e'.name new.matches),
    )

-- A lookup of another name finds the same slot.
search-other :
    (fs : Fs) (name other : List ℕ) (limit size type : ℕ) (content : Bytes) (v : Scanned)
    → IsSound fs limit
    → IsFile name size limit
    → Chosen fs name limit size v
    → is_text name ≡ true
    → is_text other ≡ true
    → length other < 23
    → name ≢ other
    → search (is_named (after fs v name type content size) other) 0 (fs.dir_sectors * 16)
      ≡ search (is_named fs other) 0 (fs.dir_sectors * 16)
search-other fs name other limit size type content v so f c tn to short ne =
    let (old, new) = other_name fs name other limit size type content v so f c tn to ne in
    search_cong _ _ 0 (fs.dir_sectors * 16) (λ j lt. elim (Bool-cases (j == num v)) [
      | inl e ↦
          let at = (==_iff j (num v)).0 e in
          ap (is_named (after fs v name type content size) other) at
          ∙ new
          ∙ sym old
          ∙ sym (ap (is_named fs other) at)
      | inr e ↦ is_named-same fs (after fs v name type content size) other j short (
          others-SameEntry fs limit v name type content size j so c.place f.room (omega (arith, lt))
            (λ e'. ground (arith, e, e')))
    ])

-- The data goes to no sector of another file.
sector-other :
    (fs : Fs) (name : List ℕ) (limit size type : ℕ) (content : Bytes) (v : Scanned) (l a : ℕ)
    → IsSound fs limit
    → IsFile name size limit
    → Chosen fs name limit size v
    → apart fs (num v) l ≡ true
    → (ltb l (fs.dir_sectors * 16) && is_used fs l) ≡ true
    → l ≢ num v
    → a < sectors_of (slot_entry fs l).size
    → (after fs v name type content size).disk (((slot_entry fs l).lba + a) % 2 ^ 28)
      ≡ fs.disk (((slot_entry fs l).lba + a) % 2 ^ 28)
unfolding apart
sector-other fs name limit size type content v l a so f c ap_ used ne lt =
    let u = c.known l in
    let lies_l = so.files l in
    let low : fs.data_lba ≤ (slot_entry fs l).lba = ground (arith, lies_l, used) in
    let high : (slot_entry fs l).lba + sectors_of (slot_entry fs l).size ≤ limit =
      ground (arith, lies_l, used) in
    let outside : in_range (target v (sectors_of size))
          (target v (sectors_of size) + sectors_of size) ((slot_entry fs l).lba + a)
        ≡ false =
      ground (arith, ap_, used, ne, lt, u.room, u.hit, u.old, u.below, c.slot) in
    fun_ext (λ j. ground (
      arith,
      placed_lem content size (target v (sectors_of size)) 0 (sectors_of size) fs.disk
          (((slot_entry fs l).lba + a) % 2 ^ 28) j,
      outside,
      low,
      high,
      lt,
      c.place.above,
      c.place.within,
      c.place.sector,
      so.directory,
      f.room,
    ))

-- A slot that a lookup of another name finds reads the same after `put_file`.
read_at-after :
    (fs : Fs) (name other : List ℕ) (limit size type : ℕ) (content buf : Bytes) (max : ℕ)
    (v : Scanned) (o : Option ℕ)
    → IsSound fs limit
    → ((k l : ℕ) → apart fs k l ≡ true)
    → IsFile name size limit
    → Chosen fs name limit size v
    → is_named fs other (num v) ≡ false
    → search (is_named fs other) 0 (fs.dir_sectors * 16) ≡ o
    → read_at (after fs v name type content size) buf max o ≡ read_at fs buf max o
unfolding read_at
read_at-after fs name other limit size type content buf max v none so ap_ f c old e = refl
read_at-after fs name other limit size type content buf max v (some l) so ap_ f c old e =
    let fs' = after fs v name type content size in
    let (hit, used) = found_slot fs other (fs.dir_sectors * 16) l e in
    let inside : l < fs.dir_sectors * 16 = ground (arith, used) in
    let ne : l ≢ num v = λ same. ground (arith, old, hit, ap (is_named fs other) same) in
    read_at-same fs fs' buf max l so.works so.works
      (others-SameEntry fs limit v name type content size l so c.place f.room inside ne)
      (ground (arith, so.files l, used))
      (λ a lt. sector-other fs name limit size type content v l a so f c (ap_ (num v) l) used ne lt)

-- On a working disk whose files lie apart from each other, between the directory and `limit`, with
-- room for the file behind that and a slot that is free or the file's: `fs_write` of a name of 1 to
-- 22 bytes without a slash and of less than 2 ^ 32 - 511 bytes succeeds, and `fs_read` of any other name answers the same before and after it.
pub read-other :
    (stack : Bytes) (fs : Fs) (name : List ℕ) (type : ℕ) (content : Bytes) (size limit k max : ℕ)
    (other : List ℕ) (buf : Bytes)
    → IsSound fs limit
    → ((k l : ℕ) → apart fs k l ≡ true)
    → IsFile name size limit
    → has_slash name ≡ false
    → takes fs name k ≡ true
    → is_text name ≡ true
    → is_text other ≡ true
    → length other < 23
    → name ≢ other
    → (fs' : Fs) × (fs_write stack fs name type content size ≡ (fs', true))
      × (fs_read fs' other buf max ≡ fs_read fs other buf max)
read-other stack fs name type content size limit k max other buf so ap_ f top free tn to short ne =
    let (v, c) = scan-Chosen fs name limit size k so f.room free in
    let fs' = after fs v name type content size in
    let n = fs.dir_sectors * 16 in
    let (old, new) = other_name fs name other limit size type content v so f c tn to ne in
    (
      fs',
      fs_write-top stack fs _ name type content size f.short top
          (put_file_lem fs v name type content size so.works c.scanned c.slot),
      fs_read-slot fs' other buf max so.works
          ∙ ap (read_at fs' buf max)
              (search-other fs name other limit size type content v so f c tn to short ne)
          ∙ read_at-after fs name other limit size type content buf max v _ so ap_ f c old refl
          ∙ sym (fs_read-slot fs other buf max so.works),
    )
