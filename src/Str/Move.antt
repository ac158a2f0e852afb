-- ===== src/Str/Move.antt =====
-- `memmove` copies the old source, whichever way the two areas overlap.
use lunaria_os.Base.{
  ℕ, zero, suc, ◌+◌, ◌-◌, ◌≤◌, ◌≡◌, ap, ◌&&◌, Bytes, write, in_range, copy_lem, ltb, leb, ◌==◌,
  if◌then◌else◌, arith, inl, inr, Bool-cases,
}
use lunaria_os.Str.{copy_back, memmove}

copy_back_lem :
    (n d s : ℕ) (m : Bytes) (j : ℕ)
    → s ≤ d
    → copy_back n d s m j ≡ (if in_range d (d + n) j then m (s + (j - d)) else m j)
unfolding copy_back
copy_back_lem zero d s m j h = ground arith
copy_back_lem (suc i) d s m j h =
    ground (arith, copy_back_lem i d s (write m (d + i) (m (s + i))) j h, ap m (last i))
  where
    last : (i : ℕ) → s + (d + i - d) ≡ s + i
    last i = omega arith

-- For any two pointers and any length, `memmove` leaves at the destination the bytes that the source
-- had before, and all other bytes as they were.
pub memmove_lem :
    (m : Bytes) (d s n j : ℕ)
    → memmove m d s n j ≡ (if in_range d (d + n) j then m (s + (j - d)) else m j)
unfolding memmove
memmove_lem m d s n j = elim (Bool-cases (ltb d s)) [
  | inl e ↦ ground (arith, e, copy_lem n d s m j (inl (ground (arith, e))), ap m same)
  | inr e ↦ ground (arith, e, copy_back_lem n d s m j (ground (arith, e)), ap m same)
]
  where
    same : s + (j - d) ≡ (if (d == s) && leb d j then j else s + (j - d))
    same = ground arith
