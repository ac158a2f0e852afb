-- ===== src/Heap/Tests.antt =====
-- A heap with two free blocks: 64 bytes at 0x400100, and 32 at 0x400200, below the break 0x401000.
use lunaria_os.Base.{
  ℕ, ◌+◌, ◌≡◌, ◌≢◌, refl, List, [], ◌∷◌, Option, none, some, write, leb, ltb, arith, ◌^◌, ◌*◌,
}
use lunaria_os.Vm.{Vm}
use lunaria_os.Frames.{user_stack}
use lunaria_os.Heap.{
  Heap, usable, align8, request, malloc, free, find_fit, carve, malloc_loop, morecore, grown,
  last_block, append_block, find_place, link_block, merged,
}
use lunaria_os.Heap.Blocks.{Block, IsHeap}
use lunaria_os.Heap.Take.{first_fit}
use lunaria_os.Heap.Malloc.{block_size, whole_pages, IsServed, malloc-IsServed}
use lunaria_os.Heap.Release.{Frees, free-Frees}
use lunaria_os.Heap.Calloc.{calloc, IsCalloc, calloc_lem}
use lunaria_os.Heap.Restore.{Restored, free-malloc}

abbrev process : Vm
process = record {
  pmm = record { mem_top = 0; nframes = 0; frames_free = 0; bitmap = λ n. 0 };
  words = λ w. 0;
  page_dir = 0;
  cr3 = 0;
  cur_dir = 0;
  brk = 0x401000;
  fault_count = 0;
}

-- The block at 0x400140, of 32 bytes, is in use.
abbrev two_blocks : Heap
two_blocks = record {
  vm = process;
  words =
      write
        (write (write (write (write (λ a. 0) 0x400100 64) 0x400104 0x400200) 0x400200 32) 0x400204
          0)
        0x400140 32;
  payload = λ a. 7;
  freelist = 0x400100;
  heap_brk = 0x401000;
  state = usable;
}

abbrev blocks : List Block
blocks = (0x400100, 64) ∷ (0x400200, 32) ∷ []

two_blocks-IsHeap : IsHeap two_blocks 0x401000 blocks
two_blocks-IsHeap = record {
  chain = (refl, refl, (refl, refl, refl));
  spaced = (omega arith, omega arith, (omega arith, omega arith, omega arith));
  small = omega arith;
  ready = refl;
}

malloc-IsServed_example :
    IsServed two_blocks
      (block_size 20)
      (whole_pages (block_size 20))
      0x401000
      blocks
      (first_fit (block_size 20) blocks)
      (leb (0x401000 + whole_pages (block_size 20)) user_stack)
      (malloc 0x400000 4 two_blocks 20)
malloc-IsServed_example =
    malloc-IsServed 0x400000 4 two_blocks 20 0x401000 blocks (omega arith) (omega arith)
      two_blocks-IsHeap (omega arith) (omega arith) refl (omega arith)

-- The answer of `malloc` for 20 bytes, with the first free block after it, and for 8 pages.
abbrev answer : Option (Heap × ℕ) → Option (ℕ × ℕ × ℕ)
answer none = none
answer (some (h, p)) = some (p, h.freelist, h.words h.freelist)

malloc_small : answer (malloc 0x400000 4 two_blocks 20) ≡ some (0x400108, 0x400120, 32)
unfolding malloc malloc_loop find_fit carve align8
malloc_small = refl

malloc_pages : answer (malloc 0x400000 5 two_blocks 32000) ≡ some (0x401008, 0x400100, 64)
unfolding malloc malloc_loop find_fit carve align8 morecore grown request last_block append_block
    lunaria_os.Vm.vm_sbrk
malloc_pages = refl

-- A size whose rounding wraps gets a block of eight bytes.
malloc_wrapped : answer (malloc 0x400000 4 two_blocks 0xffffffff) ≡ some (0x400108, 0x400108, 56)
unfolding malloc malloc_loop find_fit carve align8
malloc_wrapped = refl

free-Frees_example : Frees two_blocks 0x401000 0x400140 32 blocks (free 3 two_blocks 0x400148)
free-Frees_example =
    free-Frees 3 two_blocks 0x400140 32 0x401000 blocks (omega arith) (omega arith) (omega arith)
      refl two_blocks-IsHeap (λ x. ground arith) (omega arith)

-- The block joins the free block before it, which ends at 0x400140.
abbrev first_block : Option Heap → Option (ℕ × ℕ)
first_block none = none
first_block (some h) = some (h.words h.freelist, h.words (h.freelist + 4))

free_merges : first_block (free 3 two_blocks 0x400148) ≡ some (96, 0x400200)
unfolding free find_place link_block merged
free_merges = refl

fits_first : first_fit (align8 20 + 8) blocks ≢ none
unfolding first_fit align8
fits_first = ground arith

free-malloc_example :
    (h1 : Heap) × (p : ℕ) × (malloc 0x400000 4 two_blocks 20 ≡ some (h1, p))
    × Restored two_blocks 0x401000 blocks (free 4 h1 p)
free-malloc_example =
    free-malloc 0x400000 4 two_blocks 20 0x401000 blocks (omega arith) (omega arith)
      two_blocks-IsHeap (omega arith) (omega arith) refl (omega arith) fits_first

calloc_lem_example :
    IsCalloc
      (ltb (3 * 7) (2 ^ 32))
      (3 * 7)
      two_blocks
      (malloc 0x400000 4 two_blocks (3 * 7))
      (calloc 0x400000 4 two_blocks 3 7)
calloc_lem_example = calloc_lem 0x400000 4 two_blocks 3 7 (omega arith) (omega arith)
