-- ===== src/Fs/ListingBounds.antt =====
-- `fs_ls_buf` ends and keeps to the caller's buffer.
use mathlib.Core.Path.{subst}
use lunaria_os.Base.{
  false, ◌⊎◌, ℕ, zero, suc, ◌+◌, ◌-◌, ◌*◌, ◌/◌, ◌%◌, ◌^◌, ◌<◌, ◌≤◌, ◌≡◌, refl, List, Bool, true,
  ◌||◌, Option, none, some, Bytes, length, ltb, ◌==◌, if◌then◌else◌, arith, Bool-cases, inl, inr,
}
use lunaria_os.Fs.{int_of, Fs, FileEntry}
use lunaria_os.Base.Int.{ℤ, pos, negsuc}
use lunaria_os.Fs.Listing.{Out, ls_byte, ls_bytes, ls_sectors, end_listing, ls_buf_dir}

-- what a listing has done to the caller's buffer: nothing at or behind `max`
pub record IsInside (max : ℕ) (old : Bytes) (j : ℕ) (v : Out) : Type 0 where
  pub place : v.o < max
  pub beyond : (ltb j max || (v.buf j == old j)) ≡ true

ls_byte-IsInside :
    (max skip c : ℕ) (old : Bytes) (j : ℕ) (v : Out)
    → max < 2 ^ 32
    → IsInside max old j v
    → IsInside max old j (ls_byte max skip c v)
unfolding ls_byte
ls_byte-IsInside max skip c old j v lt h = record {
  place = ground (arith, h.place, lt);
  beyond = ground (arith, h.place, h.beyond, lt);
}

ls_bytes-IsInside :
    (n max skip k : ℕ) (sec old : Bytes) (j : ℕ) (v : Out)
    → max < 2 ^ 32
    → IsInside max old j v
    → IsInside max old j (ls_bytes max skip sec k n v)
unfolding ls_bytes
ls_bytes-IsInside zero max skip k sec old j v lt h = h
ls_bytes-IsInside (suc n) max skip k sec old j v lt h =
    ls_bytes-IsInside n max skip (k + 1) sec old j (ls_byte max skip (sec k) v) lt
      (ls_byte-IsInside max skip (sec k) old j v lt h)

-- With enough fuel the loop ends, on every disk, and it keeps to the buffer also where a sector cannot be read.
abbrev Ends : ℕ → Bytes → ℕ → Option (Out × Bool) → Type 0
Ends max old j r = (v : Out) × (ok : Bool) × (r ≡ some (v, ok)) × IsInside max old j v

ls_sectors-Ends :
    (f : ℕ) (fs : Fs) (max skip lba remaining : ℕ) (old : Bytes) (j : ℕ) (v : Out)
    → max < 2 ^ 32
    → remaining ≤ f * 512
    → IsInside max old j v
    → Ends max old j (ls_sectors f fs max skip lba remaining v)
unfolding ls_sectors
ls_sectors-Ends zero fs max skip lba zero old j v lt fuel h = (v, true, refl, h)
ls_sectors-Ends zero fs max skip lba (suc r) old j v lt fuel h = absurd (omega (arith, fuel))
ls_sectors-Ends (suc f) fs max skip lba zero old j v lt fuel h = (v, true, refl, h)
ls_sectors-Ends (suc f) fs max skip lba (suc r) old j v lt fuel h =
    elim (Bool-cases (fs.faulty (lba % 2 ^ 28))) [
      | inl e ↦ subst (Ends max old j) (ground (arith, e)) (v, false, refl, h)
      | inr e ↦
          let n = if ltb (suc r) 512 then suc r else 512 in
          let v' = ls_bytes max skip (fs.disk (lba % 2 ^ 28)) 0 n v in
          subst (Ends max old j) (ground (arith, e)) (
            ls_sectors-Ends f fs max skip (lba + 1) (suc r - n) old j v' lt (ground (arith, fuel))
              (ls_bytes-IsInside n max skip 0 (fs.disk (lba % 2 ^ 28)) old j v lt h))
    ]

-- The answer of a listing: nothing is stored at or behind `max`, and the answer is -1 or a length below `max`.
pub record IsListing (max : ℕ) (old : Bytes) (j : ℕ) (r : Bytes × ℤ) : Type 0 where
  pub answer : (r.1 ≡ negsuc 0) ⊎ ((len : ℕ) × (r.1 ≡ pos len) × (len < max))
  pub beyond : (ltb j max || (r.0 j == old j)) ≡ true

end_listing-IsListing :
    (max : ℕ) (old : Bytes) (j : ℕ) (v : Out) (ok : Bool)
    → max ≤ 2 ^ 31
    → IsInside max old j v
    → IsListing max old j (end_listing (v, ok))
unfolding end_listing
end_listing-IsListing max old j v false le h = record { answer = inl refl; beyond = h.beyond }
end_listing-IsListing max old j v true le h = record {
  answer = inr (v.o, small v.o (omega (arith, h.place, le)), h.place);
  beyond = ground (arith, h.place, h.beyond);
}
  where
    small : (x : ℕ) → x < 2 ^ 31 → int_of x ≡ pos x
    small x lt = ground (arith, lt)

-- For a buffer of `max` bytes, from 1 to 2^31, and a named directory, whatever its lookup found and whichever sectors can
-- be read: `fs_ls_buf` ends, answers -1 or a length below `max`, and stores nothing at or behind `max`, where it
-- answers -1 too.
pub ls_buf_dir_lem :
    (fs : Fs) (name : List ℕ) (buf : Bytes) (max : ℕ) (found : Option FileEntry) (j : ℕ)
    → 0 < max
    → max ≤ 2 ^ 31
    → (r : Bytes × ℤ) × (ls_buf_dir fs name buf max found ≡ some r) × IsListing max buf j r
unfolding ls_buf_dir
ls_buf_dir_lem fs name buf max none j pos_ le =
    ((buf, negsuc 0), refl, record { answer = inl refl; beyond = ground arith })
ls_buf_dir_lem fs name buf max (some e) j pos_ le =
    let start : Out = record { o = 0; skip_left = length name + 1; buf = buf } in
    let (v, ok, eq, inside) =
      ls_sectors-Ends (e.size / 512 + 1) fs max (length name + 1) e.lba e.size buf j start
        (omega (arith, le)) (omega arith) (record { place = pos_; beyond = ground arith }) in
    (end_listing (v, ok), ground (arith, eq), end_listing-IsListing max buf j v ok le inside)
