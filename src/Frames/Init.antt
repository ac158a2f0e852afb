-- ===== src/Frames/Init.antt =====
-- `memory_init`: which frames are free once the allocator is set up.
use lunaria_os.Base.{
  ℕ, ◌-◌, ◌*◌, ◌/◌, ◌^◌, ◌<◌, ◌≡◌, Bool, ◌&&◌, arith, Bytes, each, in_range, ltb, ◌==◌,
  if◌then◌else◌,
}
use lunaria_os.Base.Bits.{and_ones, and_high}
use lunaria_os.Frames.{Pmm, frame_used, page_size, page_floor, bitmap_bytes}
use lunaria_os.Frames.Alloc.{IsPmm, is_free, take_frame}

-- `& ~(PAGE_SIZE - 1)` rounds down to a page.
pub page_floor_lem : (x : ℕ) → x < 2 ^ 32 → page_floor x ≡ x / 4096 * 4096
page_floor_lem x h = omega (arith, and_high 12 (2 ^ 20 - 1) x, and_ones 20 (x / 2 ^ 12))

-- a consistent state, the number of frames, and which frames are free
record IsSetUp (n : ℕ) (free : ℕ → Bool) (p : Pmm) : Type 0 where
  valid : IsPmm p
  size : p.nframes ≡ n
  frames : (j : ℕ) → is_free p j ≡ free j

-- the frame `j` starts in the range of addresses from `a` up to `e`
abbrev pub page_in : ℕ → ℕ → ℕ → Bool
page_in a e j = in_range a e (j * page_size)

-- one round of the last loop
abbrev protect_one : Pmm → ℕ → Pmm
protect_one p i = if ltb i p.nframes && (frame_used p.bitmap i == 0) then take_frame p i else p

-- the state before the loops of `memory_init`: all frames reserved
abbrev full : ℕ → ℕ → Bytes → Pmm
full top n old = record {
  mem_top = top;
  nframes = n;
  frames_free = 0;
  bitmap = each (λ i b. 255) (bitmap_bytes n) 0 old;
}
