-- ===== src/Frames/Bitmap.antt =====
-- The bitmap as a set of frames: what setting and clearing a bit does to every frame's bit, and to
-- the number of free frames.
use lunaria_os.Base.{
  ℕ, zero, suc, ◌+◌, ◌-◌, ◌/◌, ◌%◌, ◌^◌, ◌<◌, ◌≤◌, ◌≡◌, refl, Bool, true, ◌&&◌, bit_and, bit_or,
  arith, Bytes, ltb, ◌==◌, if◌then◌else◌,
}
use lunaria_os.Base.Table.{holds_under, holds_under_lem}
use lunaria_os.Base.Bits.{and_ones}
use lunaria_os.Frames.{frame_used, frame_set, frame_clear}

abbrev bit_of : ℕ → ℕ → ℕ
bit_of b j = bit_and (b / 2 ^ j) 1

abbrev set_table : ℕ → ℕ → ℕ → Bool
set_table b k j =
    (bit_of (bit_or b (2 ^ k % 256)) j == (if j == k then 1 else bit_of b j))
    && (bit_of (bit_and b (255 - 2 ^ k)) j == (if j == k then 0 else bit_of b j))
    && ltb (bit_or b (2 ^ k % 256)) 256
    && ltb (bit_and b (255 - 2 ^ k)) 256

set_table_holds :
    holds_under 256 (λ b. holds_under 8 (λ k. holds_under 8 (λ j. set_table b k j))) ≡ true
unfolding holds_under
set_table_holds = refl

pub low_three : (i : ℕ) → bit_and i 7 ≡ i % 8
low_three i = and_ones 3 i

-- the table at a byte and two bit numbers
record IsBitwise (b k j : ℕ) : Type 0 where
  set : bit_of (bit_or b (2 ^ k % 256)) j ≡ (if j == k then 1 else bit_of b j)
  clear : bit_of (bit_and b (255 - 2 ^ k)) j ≡ (if j == k then 0 else bit_of b j)
  set_byte : bit_or b (2 ^ k % 256) < 256
  clear_byte : bit_and b (255 - 2 ^ k) < 256

set_table-IsBitwise : (b k j : ℕ) → set_table b k j ≡ true → IsBitwise b k j
set_table-IsBitwise b k j h = record {
  set = ground arith;
  clear = ground arith;
  set_byte = ground arith;
  clear_byte = ground arith;
}

bitwise_lem : (b k j : ℕ) → b < 256 → k < 8 → j < 8 → IsBitwise b k j
bitwise_lem b k j hb hk hj = set_table-IsBitwise b k j (
    holds_under_lem 8 (λ j. set_table b k j) j
      (holds_under_lem 8 (λ k. holds_under 8 (λ j. set_table b k j)) k
        (holds_under_lem 256 (λ b. holds_under 8 (λ k. holds_under 8 (λ j. set_table b k j))) b
          set_table_holds hb)
        hk)
      hj)

-- every byte of the bitmap is a byte
abbrev pub IsBitmap : Bytes → Type 0
IsBitmap bitmap = (n : ℕ) → bitmap n < 256

module _ (bitmap : Bytes) (idx : ℕ) (bytes : IsBitmap bitmap) where
  pub frame_used-frame_set :
      (j : ℕ) → frame_used (frame_set bitmap idx) j ≡ (if j == idx then 1 else frame_used bitmap j)
  unfolding frame_used frame_set
  frame_used-frame_set j =
      let bits =
        bitwise_lem (bitmap (idx / 8)) (idx % 8) (j % 8) (bytes (idx / 8)) (omega arith)
          (omega arith) in
      rw (low_three idx, low_three j) (ground (arith, bits.set))

  pub frame_used-frame_clear :
      (j : ℕ)
      → frame_used (frame_clear bitmap idx) j ≡ (if j == idx then 0 else frame_used bitmap j)
  unfolding frame_used frame_clear
  frame_used-frame_clear j =
      let bits =
        bitwise_lem (bitmap (idx / 8)) (idx % 8) (j % 8) (bytes (idx / 8)) (omega arith)
          (omega arith) in
      rw (low_three idx, low_three j) (ground (arith, bits.clear))

  pub frame_set-IsBitmap : IsBitmap (frame_set bitmap idx)
  unfolding frame_set
  frame_set-IsBitmap n =
      let bits =
        bitwise_lem (bitmap (idx / 8)) (idx % 8) 0 (bytes (idx / 8)) (omega arith) (omega arith) in
      rw (low_three idx) (ground (arith, bits.set_byte, bytes n))

  pub frame_clear-IsBitmap : IsBitmap (frame_clear bitmap idx)
  unfolding frame_clear
  frame_clear-IsBitmap n =
      let bits =
        bitwise_lem (bitmap (idx / 8)) (idx % 8) 0 (bytes (idx / 8)) (omega arith) (omega arith) in
      rw (low_three idx) (ground (arith, bits.clear_byte, bytes n))

-- A bit is 0 or 1.
pub frame_used-le : (bitmap : Bytes) (j : ℕ) → frame_used bitmap j ≤ 1
unfolding frame_used
frame_used-le bitmap j = omega (arith, and_ones 1 (bitmap (j / 8) / 2 ^ bit_and j 7))

-- how many of the first `n` frames are free
unfoldable pub free_below : Bytes → ℕ → ℕ
free_below bitmap zero = 0
free_below bitmap (suc n) = free_below bitmap n + (1 - frame_used bitmap n)

module _ (bitmap : Bytes) (idx : ℕ) (bytes : IsBitmap bitmap) where
  free_below-set_above :
      (n : ℕ) → n ≤ idx → free_below (frame_set bitmap idx) n ≡ free_below bitmap n
  unfolding free_below
  free_below-set_above zero h = refl
  free_below-set_above (suc n) h =
      ground (arith, free_below-set_above n, frame_used-frame_set bitmap idx bytes n)

  pub free_below-frame_set :
      (n : ℕ)
      → idx < n
      → frame_used bitmap idx ≡ 0
      → free_below (frame_set bitmap idx) n + 1 ≡ free_below bitmap n
  unfolding free_below
  free_below-frame_set zero h e = absurd (omega arith)
  free_below-frame_set (suc n) h e = ground (
    arith,
    free_below-frame_set n,
    free_below-set_above n,
    frame_used-frame_set bitmap idx bytes n,
  )

  free_below-clear_above :
      (n : ℕ) → n ≤ idx → free_below (frame_clear bitmap idx) n ≡ free_below bitmap n
  unfolding free_below
  free_below-clear_above zero h = refl
  free_below-clear_above (suc n) h =
      ground (arith, free_below-clear_above n, frame_used-frame_clear bitmap idx bytes n)

  pub free_below-frame_clear :
      (n : ℕ)
      → idx < n
      → frame_used bitmap idx ≡ 1
      → free_below (frame_clear bitmap idx) n ≡ free_below bitmap n + 1
  unfolding free_below
  free_below-frame_clear zero h e = absurd (omega arith)
  free_below-frame_clear (suc n) h e = ground (
    arith,
    free_below-frame_clear n,
    free_below-clear_above n,
    frame_used-frame_clear bitmap idx bytes n,
  )
