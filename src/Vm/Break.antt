-- ===== src/Vm/Break.antt =====
-- The program break: `vm_note_load` and `vm_sbrk`.
use lunaria_os.Base.{ℕ, ◌+◌, ◌-◌, ◌%◌, ◌^◌, ◌<◌, ◌≤◌, ◌≡◌, arith, leb, if◌then◌else◌}
use lunaria_os.Frames.{page_size, user_base, user_stack}
use lunaria_os.Frames.Init.{page_floor_lem}
use lunaria_os.Vm.{Vm, vm_note_load, vm_sbrk}

-- A program that fits below its stack gets its break at the first page boundary past its image.
pub record IsLoaded (size : ℕ) (m : Vm) : Type 0 where
  pub past_image : user_base + size ≤ m.brk
  pub near : m.brk < user_base + size + page_size
  pub aligned : m.brk % page_size ≡ 0
  pub below_stack : m.brk ≤ user_stack

-- After loading at most 0x3ff000 bytes the break is the first page boundary at or past the image,
-- and not above the stack.
pub vm_note_load-IsLoaded :
    (m : Vm) (size : ℕ) → size ≤ 0x3ff000 → IsLoaded size (vm_note_load m size)
unfolding vm_note_load
vm_note_load-IsLoaded m size h =
    let floor = page_floor_lem ((size + page_size - 1) % 2 ^ 32) (omega arith) in
    record {
      past_image = ground (arith, floor);
      near = ground (arith, floor);
      aligned = ground (arith, floor);
      below_stack = ground (arith, floor);
    }

-- `vm_sbrk` with the break not above the stack, for every 32-bit increment: it answers the break
-- after the call, which has grown by the increment if it then is not above the stack, and is
-- unchanged otherwise. Nothing else changes, and no sum wraps.
pub vm_sbrk_lem :
    (m : Vm) (inc : ℕ)
    → m.brk ≤ user_stack
    → inc < 2 ^ 32
    → let grown = if leb (m.brk + inc) user_stack then m.brk + inc else m.brk in
      vm_sbrk m inc ≡ (record m { brk = grown }, grown)
unfolding vm_sbrk
vm_sbrk_lem m inc h lt = ground arith
