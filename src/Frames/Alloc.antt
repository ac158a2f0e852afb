-- ===== src/Frames/Alloc.antt =====
-- `alloc_frame` and `free_frame` against the set of free frames.
use lunaria_os.Base.{
  ℕ, zero, suc, ◌+◌, ◌*◌, ◌/◌, ◌%◌, ◌^◌, ◌<◌, ◌≤◌, ◌≡◌, ◌≢◌, refl, Bool, true, false, not, ◌&&◌,
  ◌||◌, arith, Bytes, ltb, ◌==◌, if◌then◌else◌, Bool-cases, inl, inr,
}
use lunaria_os.Frames.{
  Pmm, frame_used, frame_set, frame_clear, alloc_loop, alloc_frame, free_frame, page_size, dec32,
  inc32,
}
use lunaria_os.Frames.Bitmap.{
  IsBitmap, frame_used-frame_set, frame_used-frame_clear, frame_set-IsBitmap, frame_clear-IsBitmap,
  frame_used-le, free_below, free_below-frame_set, free_below-frame_clear,
}

-- The counter is the number of free frames, the bitmap has bytes, and memory ends at 4 GiB.
pub record IsPmm (p : Pmm) : Type 0 where
  pub bytes : IsBitmap p.bitmap
  pub counted : p.frames_free ≡ free_below p.bitmap p.nframes
  pub small : p.nframes ≤ 2 ^ 20

unfoldable pub is_free : Pmm → ℕ → Bool
is_free p j = ltb j p.nframes && (frame_used p.bitmap j == 0)

pub free_below-le : (bitmap : Bytes) (n : ℕ) → free_below bitmap n ≤ n
unfolding free_below
free_below-le bitmap zero = omega arith
free_below-le bitmap (suc n) = omega (arith, free_below-le bitmap n)

-- The allocator's answer. Either there is no free frame, the answer is 0 and
-- nothing changes; or the answer is the address of the first free frame, and that frame alone is
-- no longer free.
pub data Allocated (p : Pmm) : Pmm × ℕ → Type 0 where
  none_left : ((j : ℕ) → is_free p j ≡ false) → Allocated p (p, 0)
  taken :
      (p' : Pmm) (i a : ℕ)
      → a ≡ i * page_size
      → is_free p i ≡ true
      → ((j : ℕ) → (ltb j i && is_free p j) ≡ false)
      → ((j : ℕ) → is_free p' j ≡ (is_free p j && not (j == i)))
      → p'.frames_free + 1 ≡ p.frames_free
      → p'.nframes ≡ p.nframes
      → IsPmm p'
      → Allocated p (p', a)

-- the state with frame `i` taken, and with frame `i` given back
abbrev pub take_frame : Pmm → ℕ → Pmm
take_frame p i = record p { bitmap = frame_set p.bitmap i; frames_free = dec32 p.frames_free }

abbrev pub give_frame : Pmm → ℕ → Pmm
give_frame p i = record p { bitmap = frame_clear p.bitmap i; frames_free = inc32 p.frames_free }

module _ (p : Pmm) (v : IsPmm p) (i : ℕ) (lt : i < p.nframes) where
  pub take_frame-IsPmm : frame_used p.bitmap i ≡ 0 → IsPmm (take_frame p i)
  take_frame-IsPmm e = record {
    bytes = frame_set-IsBitmap p.bitmap i v.bytes;
    counted = omega (
      arith,
      v.counted,
      v.small,
      free_below-le p.bitmap p.nframes,
      free_below-frame_set p.bitmap i v.bytes p.nframes lt e,
    );
    small = v.small;
  }

  take_frame-count : frame_used p.bitmap i ≡ 0 → dec32 p.frames_free + 1 ≡ p.frames_free
  take_frame-count e = omega (
    arith,
    v.counted,
    v.small,
    free_below-le p.bitmap p.nframes,
    free_below-frame_set p.bitmap i v.bytes p.nframes lt e,
  )

  pub give_frame-IsPmm : frame_used p.bitmap i ≡ 1 → IsPmm (give_frame p i)
  give_frame-IsPmm e = record {
    bytes = frame_clear-IsBitmap p.bitmap i v.bytes;
    counted = omega (
      arith,
      v.counted,
      v.small,
      free_below-le p.bitmap p.nframes,
      free_below-frame_clear p.bitmap i v.bytes p.nframes lt e,
    );
    small = v.small;
  }

  give_frame-count : frame_used p.bitmap i ≡ 1 → inc32 p.frames_free ≡ p.frames_free + 1
  give_frame-count e = omega (arith, v.counted, v.small, free_below-le p.bitmap p.nframes)

alloc_loop-Allocated :
    (n i : ℕ) (p : Pmm)
    → IsPmm p
    → i + n ≡ p.nframes
    → ((j : ℕ) → (ltb j i && is_free p j) ≡ false)
    → Allocated p (alloc_loop n i p)
unfolding alloc_loop is_free
alloc_loop-Allocated zero i p v e below = none_left (λ j. ground (arith, below j))
alloc_loop-Allocated (suc n) i p v e below = elim (Bool-cases (frame_used p.bitmap i == 0)) [
  | inl found ↦ rw found (
      taken (take_frame p i) i (i * page_size % 2 ^ 32) (omega (arith, v.small)) (ground arith)
        below (λ j. ground (arith, frame_used-frame_set p.bitmap i v.bytes j))
        (take_frame-count p v i (omega arith) (ground arith)) refl
        (take_frame-IsPmm p v i (omega arith) (ground arith)))
  | inr used ↦
      rw used (alloc_loop-Allocated n (i + 1) p v (omega arith) (λ j. ground (arith, below j)))
]

-- `alloc_frame` from a consistent state: with no free frame it answers 0 and changes nothing;
-- otherwise it answers the address of the first free frame, which is the one frame that stops being
-- free, the counter falls by one, and the state stays consistent.
pub alloc_frame-Allocated : (p : Pmm) → IsPmm p → Allocated p (alloc_frame p)
unfolding alloc_frame
alloc_frame-Allocated p v = alloc_loop-Allocated p.nframes 0 p v (omega arith) (λ j. ground arith)

-- `free_frame` from a consistent state, at any address: the frame of that address becomes free if
-- it lies below the top of memory, no other changes, the counter grows by one exactly if the frame
-- was in use, and the state stays consistent.
pub record IsFreed (p : Pmm) (addr j : ℕ) (p' : Pmm) : Type 0 where
  pub frames : is_free p' j ≡ (is_free p j || (ltb j p.nframes && (j == addr / page_size)))
  pub count : p'.frames_free ≡ (
      if ltb (addr / page_size) p.nframes && not (is_free p (addr / page_size))
      then p.frames_free + 1
      else p.frames_free)
  pub size : p'.nframes ≡ p.nframes
  pub valid : IsPmm p'

pub free_frame-IsFreed : (p : Pmm) (addr j : ℕ) → IsPmm p → IsFreed p addr j (free_frame p addr)
unfolding free_frame is_free
free_frame-IsFreed p addr j v =
    let i = addr / page_size in
    let used = frame_used-le p.bitmap i in
    record {
      frames = ground (arith, frame_used-frame_clear p.bitmap i v.bytes j, used);
      count = ground (arith, give_frame-count p v i);
      size = ground arith;
      valid = elim (Bool-cases (ltb i p.nframes && not (frame_used p.bitmap i == 0))) [
        | inl yes_ ↦ rw yes_ (give_frame-IsPmm p v i (ground arith) (ground arith))
        | inr no_ ↦ rw no_ v
      ];
    }

pub is_free-lt : (p : Pmm) (i : ℕ) → is_free p i ≡ true → i < p.nframes
unfolding is_free
is_free-lt p i h = ground arith

-- Where `alloc_frame` answers a frame, not 0: giving it back restores the set of free frames and the counter.
pub free-alloc :
    (p : Pmm) (j : ℕ)
    → IsPmm p
    → (alloc_frame p).1 ≢ 0
    → let (p', a) = alloc_frame p in
      (is_free (free_frame p' a) j ≡ is_free p j) × ((free_frame p' a).frames_free ≡ p.frames_free)
free-alloc p j v h = go (alloc_frame p) (alloc_frame-Allocated p v) h
  where
    go :
        (out : Pmm × ℕ)
        → Allocated p out
        → out.1 ≢ 0
        → (is_free (free_frame out.0 out.1) j ≡ is_free p j)
          × ((free_frame out.0 out.1).frames_free ≡ p.frames_free)
    go out (none_left _) h = absurd (h refl)
    go out (taken p' i a at free below after count frames v') h =
        let freed = free_frame-IsFreed p' a j v' in
        let lt = is_free-lt p i free in
        let at_i : a / page_size ≡ i = omega arith in
        (ground (arith, freed.frames, after j), ground (arith, freed.count, after i))
