-- ===== src/Vm/Entries.antt =====
-- Page directory and page table entries as a frame's address and flags.
use lunaria_os.Base.{
  ℕ, ◌+◌, ◌/◌, ◌%◌, ◌^◌, ◌<◌, ◌≡◌, refl, Bool, true, false, arith, if◌then◌else◌, bit_or,
}
use lunaria_os.Base.Bits.{and_ones, or_digit, or_fields, or-zero}
use lunaria_os.Frames.{page_size, page_floor}
use lunaria_os.Frames.Init.{page_floor_lem}
use lunaria_os.Vm.{is_present, entry_for, pte_index}

-- A frame's address has zeros where the flags go.
pub entry_for_lem :
    (frame : ℕ) (user : Bool)
    → frame % page_size ≡ 0
    → entry_for frame user ≡ frame + (if user then 7 else 3)
unfolding entry_for
entry_for_lem frame true h =
    let low = or_fields 2 (frame / 4) 3 (omega arith) in
    let x = frame + 3 in
    ground (arith, low, or_digit x 4, or_digit (x / 2) 2, or_fields 1 (frame / 8) 1)
entry_for_lem frame false h =
    let low = or_fields 2 (frame / 4) 3 (omega arith) in
    ground (arith, low, or-zero (bit_or frame 3))

module _ (frame : ℕ) (user : Bool) (aligned : frame % page_size ≡ 0) where
  -- An entry is present, and its address part is the frame.
  pub is_present-entry_for : is_present (entry_for frame user) ≡ true
  is_present-entry_for =
      ground (arith, entry_for_lem frame user aligned, and_ones 1 (entry_for frame user))

  pub page_floor-entry_for : frame < 2 ^ 32 → page_floor (entry_for frame user) ≡ frame
  page_floor-entry_for h =
      ground (arith, entry_for_lem frame user aligned, page_floor_lem (entry_for frame user))

pub is_present-zero : is_present 0 ≡ false
is_present-zero = refl

pub pte_index-lt : (addr : ℕ) → pte_index addr < 1024
pte_index-lt addr = omega (arith, and_ones 10 (addr / 2 ^ 12))
