-- ===== src/Frames.antt =====
-- The physical frame allocator of src/kernel/memory.c: one bit for each 4 KiB frame below the top of
-- usable memory, 1 for used. `bitmap` holds the bytes at the bitmap's address; words are 32 bits wide.
-- `e820` is the table that the bootloader leaves in low memory, `kernel_end` the linker's symbol.
pub mod Bitmap
pub mod Alloc
pub mod Areas
pub mod Init
mod Tests
use lunaria_os.Base.{
  ℕ, zero, suc, ◌+◌, ◌-◌, ◌*◌, ◌/◌, ◌%◌, ◌^◌, List, [], ◌∷◌, Bool, true, false, not, ◌&&◌, ◌||◌,
  bit_and, bit_or, Bytes, write, each, ltb, leb, ◌==◌, if◌then◌else◌,
}

-- `x--` and `x++` on a uint32_t
abbrev pub dec32 : ℕ → ℕ
dec32 x = (x + 2 ^ 32 - 1) % 2 ^ 32

abbrev pub inc32 : ℕ → ℕ
inc32 x = (x + 1) % 2 ^ 32

abbrev pub page_size : ℕ
page_size = 4096

abbrev pub low_end : ℕ
low_end = 0x100000

abbrev pub user_base : ℕ
user_base = 0x400000

abbrev pub user_top : ℕ
user_top = 0x800000

abbrev pub user_stack : ℕ
user_stack = 0x7ff000

pub record E820Entry : Type 0 where
  pub base_lo : ℕ
  pub base_hi : ℕ
  pub len_lo : ℕ
  pub len_hi : ℕ
  pub type : ℕ
  pub attrs : ℕ

pub record Pmm : Type 0 where
  pub mem_top : ℕ
  pub nframes : ℕ
  pub frames_free : ℕ
  pub bitmap : Bytes

-- the entries that the scans pass over
abbrev pub is_skipped : E820Entry → Bool
is_skipped e = not (e.type == 1) || not (e.base_hi == 0)

-- one round of `top_usable`, with the largest end so far
unfoldable pub raise_top : ℕ → E820Entry → ℕ
raise_top top e =
    let sum = (e.base_lo + e.len_lo) % 2 ^ 32 in
    let end = if ltb sum e.base_lo then 0xffff_ffff else sum in
    if is_skipped e then top else if ltb top end then end else top

unfoldable pub top_loop : ℕ → List E820Entry → ℕ
top_loop top [] = top
top_loop top (e ∷ es) = top_loop (raise_top top e) es

unfoldable pub top_usable : List E820Entry → ℕ
unfolding top_loop
top_usable es = top_loop 0 es

-- `(int32_t)(addr - base)` is not negative when the difference, modulo 2 ^ 32, is below 2 ^ 31.
unfoldable pub in_usable : List E820Entry → ℕ → Bool
in_usable [] addr = false
in_usable (e ∷ es) addr =
    let diff = (addr + 2 ^ 32 - e.base_lo) % 2 ^ 32 in
    not (is_skipped e) && (ltb diff (2 ^ 31) && ltb diff e.len_lo) || in_usable es addr

unfoldable pub frame_used : Bytes → ℕ → ℕ
frame_used bitmap idx = bit_and (bitmap (idx / 8) / 2 ^ bit_and idx 7) 1

unfoldable pub frame_set : Bytes → ℕ → Bytes
frame_set bitmap idx = write bitmap (idx / 8) (bit_or (bitmap (idx / 8)) (2 ^ bit_and idx 7 % 256))

-- `(unsigned char)~(1 << k)` is 255 - 2 ^ k for k < 8
unfoldable pub frame_clear : Bytes → ℕ → Bytes
frame_clear bitmap idx =
    write bitmap (idx / 8) (bit_and (bitmap (idx / 8)) (255 - 2 ^ bit_and idx 7))

-- The loop of `alloc_frame`, with `n` frames left to look at from frame `i` on.
unfoldable pub alloc_loop : ℕ → ℕ → Pmm → Pmm × ℕ
alloc_loop zero i p = (p, 0)
alloc_loop (suc n) i p =
    let rest = alloc_loop n (i + 1) p in
    if frame_used p.bitmap i == 0
    then (
      record p { bitmap = frame_set p.bitmap i; frames_free = dec32 p.frames_free },
      i * page_size % 2 ^ 32,
    )
    else rest

unfoldable pub alloc_frame : Pmm → Pmm × ℕ
alloc_frame p = alloc_loop p.nframes 0 p

unfoldable pub free_frame : Pmm → ℕ → Pmm
free_frame p addr =
    let i = addr / page_size in
    if ltb i p.nframes && not (frame_used p.bitmap i == 0)
    then record p { bitmap = frame_clear p.bitmap i; frames_free = inc32 p.frames_free }
    else p

-- `used` in the loop of `memory_init`
unfoldable pub is_reserved : List E820Entry → ℕ → Bool
is_reserved es addr =
    ltb addr low_end || (leb user_base addr && ltb addr user_top) || not (in_usable es addr)

unfoldable pub release_usable : List E820Entry → ℕ → ℕ → Pmm → Pmm
release_usable es zero idx p = p
release_usable es (suc n) idx p = release_usable es n (idx + 1) (
    if is_reserved es (idx * page_size)
    then p
    else record p { bitmap = frame_clear p.bitmap idx; frames_free = inc32 p.frames_free })

-- The last loop of `memory_init`, from the address `a` to the end `e`. It has `bm_bytes + 1` rounds
-- of fuel and `a` grows by a page each round; that this suffices is part of `memory_init_lem`.
unfoldable pub protect : ℕ → ℕ → ℕ → Pmm → Pmm
protect zero a e p = p
protect (suc f) a e p =
    let i = a / page_size in
    let next : Pmm =
      if ltb i p.nframes && (frame_used p.bitmap i == 0)
      then record p { bitmap = frame_set p.bitmap i; frames_free = dec32 p.frames_free }
      else p in
    let rest = protect f (a + page_size) e next in if ltb a e then rest else p

-- `x & ~(PAGE_SIZE - 1)`
abbrev pub page_floor : ℕ → ℕ
page_floor x = bit_and x 0xffff_f000

abbrev pub bitmap_base : ℕ → ℕ
bitmap_base kernel_end = page_floor ((kernel_end + page_size - 1) % 2 ^ 32)

abbrev pub bitmap_bytes : ℕ → ℕ
bitmap_bytes nframes = (nframes + 7) / 8

-- `old` is the memory at the bitmap's address before.
unfoldable pub memory_init : List E820Entry → ℕ → Bytes → Pmm
memory_init es kernel_end old =
    let top = top_usable es in
    let n = top / page_size in
    let base = bitmap_base kernel_end in
    let bytes = bitmap_bytes n in
    let full : Pmm = record {
      mem_top = top;
      nframes = n;
      frames_free = 0;
      bitmap = each (λ i b. 255) bytes 0 old;
    } in
    protect (bytes + 1) (page_floor base) (base + bytes) (release_usable es n 0 full)

pub memory_total_kb : Pmm → ℕ
memory_total_kb p = p.mem_top / 1024

pub memory_free_frames : Pmm → ℕ
memory_free_frames p = p.frames_free

pub memory_total_frames : Pmm → ℕ
memory_total_frames p = p.nframes
