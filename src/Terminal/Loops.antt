-- ===== src/Terminal/Loops.antt =====
-- What the two loops of wm.c over the cells leave in each byte.
use lunaria_os.Base.{
  ℕ, zero, suc, ◌+◌, ◌*◌, ◌%◌, ◌≡◌, arith, Bytes, write, in_range, ◌==◌, if◌then◌else◌,
}
use lunaria_os.Terminal.{scroll_up, blank}

-- The loop reads 160 bytes ahead of where it writes, so it always reads old bytes.
pub scroll_up_lem :
    (n i : ℕ) (m : Bytes) (j : ℕ)
    → scroll_up n i m j ≡ (if in_range i (i + n) j then m (j + 160) else m j)
unfolding scroll_up
scroll_up_lem zero i m j = ground arith
scroll_up_lem (suc n) i m j = ground (arith, scroll_up_lem n (i + 1) (write m i (m (i + 160))) j)

pub blank_lem :
    (color n i : ℕ) (m : Bytes) (j : ℕ)
    → blank color n (i * 2) m j
      ≡ (if in_range (i * 2) ((i + n) * 2) j then (if j % 2 == 0 then 32 else color) else m j)
unfolding blank
blank_lem color zero i m j = ground arith
blank_lem color (suc n) i m j =
    ground (arith, blank_lem color n (i + 1) (write (write m (i * 2) 32) (i * 2 + 1) color) j)
