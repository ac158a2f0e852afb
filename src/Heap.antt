-- ===== src/Heap.antt =====
-- The heap of src/home/lib/libc.c: a first-fit free list in address order, over the program break that
-- the kernel keeps. `words` has the headers: a block at the address `a` has its size at `a` and the
-- address of the next free block at `a + 4`. `payload` has the bytes that programs use. Each loop
-- runs along the free list and has a round of fuel for each of its blocks; `none` is a loop that
-- does not end.
pub mod Blocks
pub mod Take
pub mod Carve
pub mod Size
pub mod Malloc
pub mod Insert
pub mod Merge
pub mod Release
pub mod Calloc
pub mod Resize
pub mod Restore
pub mod Grow
mod Tests
use lunaria_os.Base.{
  ℕ, zero, suc, ◌+◌, ◌-◌, ◌*◌, ◌/◌, ◌%◌, ◌^◌, Bool, true, false, not, ◌&&◌, ◌||◌, Option, none,
  some, bit_and, Bytes, write, each, ltb, leb, ◌==◌, if◌then◌else◌,
}
use lunaria_os.Vm.{Vm, vm_sbrk}

-- `heap_state`: 0, 1 and -1
pub data State : Type 0 where
  not_booted usable failed : State

-- the statics, with the kernel's part of the process
pub record Heap : Type 0 where
  pub vm : Vm
  pub words : Bytes
  pub payload : Bytes
  pub freelist : ℕ
  pub heap_brk : ℕ
  pub state : State

unfoldable pub align8 : ℕ → ℕ
align8 n = bit_and ((n + 7) % 2 ^ 32) (2 ^ 32 - 8)

-- `sys_sbrk`
abbrev pub sys_sbrk : Heap → ℕ → Heap × ℕ
sys_sbrk h inc = (record h { vm = (vm_sbrk h.vm inc).0 }, (vm_sbrk h.vm inc).1)

-- `heap_boot` after the test of the break; `cur` is what it was.
unfoldable pub boot_grown : Heap × ℕ → ℕ → Heap
boot_grown (h, got) cur =
    let (h', brk) = sys_sbrk h 0 in
    if leb got cur
    then record h { state = failed }
    else record h' { heap_brk = brk; state = usable }

-- `start` is the address of `__heap_start`.
unfoldable pub heap_boot : ℕ → Heap → Heap
heap_boot start h =
    let (h1, cur) = sys_sbrk h 0 in
    let (h2, brk) = sys_sbrk h1 0 in
    if ltb cur start
    then boot_grown (sys_sbrk h1 (start - cur)) cur
    else record h2 { heap_brk = brk; state = usable }

-- The loop of `morecore` to the last free block.
unfoldable pub last_block : ℕ → Bytes → ℕ → Option ℕ
last_block zero words p = none
last_block (suc f) words p =
    let rest = last_block f words (words (p + 4)) in if words (p + 4) == 0 then some p else rest

-- The end of `morecore`: the new block `b` of `req` bytes joins the block `p`, the last.
unfoldable pub append_block : Heap → ℕ → ℕ → Heap
append_block h b p = record h {
  words =
      if (p + h.words p) % 2 ^ 32 == b
      then write h.words p ((h.words p + h.words b) % 2 ^ 32)
      else write h.words (p + 4) b;
}

-- how much `morecore` asks for
unfoldable pub request : ℕ → ℕ
request need =
    let req = if ltb 4096 need then need else 4096 in
    bit_and ((req + 4095) % 2 ^ 32) (2 ^ 32 - 4096)

-- `morecore` with the answer of `sys_sbrk`
unfoldable pub grown : ℕ → Heap × ℕ → ℕ → Option (Heap × Bool)
grown f (h, got) req =
    let b = h.heap_brk in
    let h1 : Heap = record h { heap_brk = got; words = write (write h.words b req) (b + 4) 0 } in
    let appended : Option (Heap × Bool) = elim (last_block f h1.words h.freelist) [
      | none ↦ none
      | some p ↦ some (append_block h1 b p, true)
    ] in
    if not (got == (b + req) % 2 ^ 32)
    then some (h, false)
    else if h.freelist == 0
    then some (record h1 { freelist = b }, true)
    else appended

unfoldable pub morecore : ℕ → Heap → ℕ → Option (Heap × Bool)
morecore f h need = grown f (sys_sbrk h (request need)) (request need)

-- The search of `malloc` from the block `b` on: the first that fits, or 0, and the one before it.
unfoldable pub find_fit : ℕ → Bytes → ℕ → ℕ → ℕ → Option (ℕ × ℕ)
find_fit zero words need prev b = none
find_fit (suc f) words need prev b =
    let rest = find_fit f words need b (words (b + 4)) in
    if b == 0 then some (prev, 0) else if leb need (words b) then some (prev, b) else rest

-- `prev->next = q`, or the head of the list
abbrev pub set_link : Heap → ℕ → ℕ → Heap
set_link h prev q =
    if prev == 0 then record h { freelist = q } else record h { words = write h.words (prev + 4) q }

-- The body of the search for the block that fits: what is left of it goes back into the list.
unfoldable pub carve : Heap → ℕ → ℕ → ℕ → Heap
carve h need prev b =
    let next = h.words (b + 4) in
    let rest = (b + need) % 2 ^ 32 in
    let w1 = write h.words rest ((h.words b + 2 ^ 32 - need) % 2 ^ 32) in
    let w2 = write (write w1 (rest + 4) next) b need in
    if leb ((need + 16) % 2 ^ 32) (h.words b)
    then set_link (record h { words = w2 }) prev rest
    else set_link h prev next

-- The rounds of `malloc`, `n` of them. The address 0 is the null pointer.
unfoldable pub malloc_loop : ℕ → ℕ → Heap → ℕ → Option (Heap × ℕ)
malloc_loop f zero h need = none
malloc_loop f (suc n) h need = elim (find_fit f h.words need 0 h.freelist) [
  | none ↦ none
  | some (prev, b) ↦
      let more : Option (Heap × ℕ) = elim (morecore f h need) [
        | none ↦ none
        | some (h', done) ↦
            let rest = malloc_loop f n h' need in if done then rest else some (h', 0)
      ] in
      if b == 0 then more else some (carve h need prev b, (b + 8) % 2 ^ 32)
]

-- `malloc` of a booted heap
abbrev pub malloc_in : ℕ → Heap → ℕ → Option (Heap × ℕ)
malloc_in f h size = elim h.state [
  | failed ↦ some (h, 0)
  | _ ↦ malloc_loop f 2 h ((align8 size + 8) % 2 ^ 32)
]

unfoldable pub malloc : ℕ → ℕ → Heap → ℕ → Option (Heap × ℕ)
malloc start f h size = elim h.state [
  | not_booted ↦ malloc_in f (heap_boot start h) size
  | _ ↦ malloc_in f h size
]

-- The loop of `free`: the last free block before `b`, or 0, and the one after it.
unfoldable pub find_place : ℕ → Bytes → ℕ → ℕ → ℕ → Option (ℕ × ℕ)
find_place zero words b prev cur = none
find_place (suc f) words b prev cur =
    let rest = find_place f words b cur (words (cur + 4)) in
    if not (cur == 0) && ltb cur b then rest else some (prev, cur)

-- A block `x` and the next, `y`, become one if they touch.
unfoldable pub merged : Bytes → ℕ → ℕ → Bytes
merged words x y =
    if (x + words x) % 2 ^ 32 == y
    then write (write words x ((words x + words y) % 2 ^ 32)) (x + 4) (words (y + 4))
    else words

-- `free` from its loop on: the block `b` goes between two blocks, and merges with the one that
-- follows, then with the one before.
unfoldable pub link_block : Heap → ℕ → ℕ → ℕ → Heap
link_block h b prev cur =
    let h1 = set_link (record h { words = write h.words (b + 4) cur }) prev b in
    let w2 = if cur == 0 then h1.words else merged h1.words b cur in
    record h1 { words = if prev == 0 then w2 else merged w2 prev b }

unfoldable pub free : ℕ → Heap → ℕ → Option Heap
free f h ptr =
    let b = ptr - 8 in
    let linked : Option Heap = elim (find_place f h.words b 0 h.freelist) [
      | none ↦ none
      | some (prev, cur) ↦ some (link_block h b prev cur)
    ] in
    if ptr == 0 then some h else linked
