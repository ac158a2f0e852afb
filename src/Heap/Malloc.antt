-- ===== src/Heap/Malloc.antt =====
-- `malloc` of a heap whose free list has a block that fits.
use lunaria_os.Base.{
  ◌*◌, ◌==◌, if◌then◌else◌, ◌/◌, ℕ, suc, ◌+◌, ◌-◌, ◌%◌, ◌^◌, ◌≤◌, ◌<◌, ◌≡◌, refl, ap, ◌∙◌, List, [],
  ◌∷◌, Bool, true, false, Option, none, some, Bytes, length, leb, arith,
}
use mathlib.Core.Path.{subst}
use lunaria_os.Heap.{
  Heap, usable, malloc, malloc_loop, morecore, request, grown, carve, align8, find_fit,
}
use lunaria_os.Heap.Blocks.{Block, IsHeap}
use lunaria_os.Heap.Take.{first_fit, fits_none, IsTaken, first_fit-IsAnswer, IsAnswer}
use lunaria_os.Heap.Carve.{Finds, find_fit-Finds}
use lunaria_os.Heap.Size.{align8_lem, request_lem, request_round}
use lunaria_os.Heap.Grow.{add_last, grown-IsGrown, IsGrown, fits_none-add_last}
use lunaria_os.Vm.{Vm, vm_sbrk}
use lunaria_os.Vm.Break.{vm_sbrk_lem}
use lunaria_os.Frames.{user_stack}

-- `carve` works on the headers and on the head of the list only.
carve_kept :
    (h : Heap) (need q a : ℕ)
    → ((carve h need q a).state ≡ h.state)
      × ((carve h need q a).payload ≡ h.payload)
      × ((carve h need q a).vm ≡ h.vm)
      × ((carve h need q a).heap_brk ≡ h.heap_brk)
unfolding carve
carve_kept h need q a = ground arith

-- A request got the block `b`: its payload is the answer, and `left` is the free list after it.
abbrev pub Gives :
    Bytes → Vm → ℕ → ℕ → ℕ → List Block → Block × List Block → Option (Heap × ℕ) → Type 0
Gives payload vm brk need hi bs (b, left) r =
    (h' : Heap) × (r ≡ some (h', b.0 + 8))
    × IsHeap h' hi left
    × IsTaken need 0 hi bs b left
    × (h'.words b.0 ≡ b.1)
    × (h'.payload ≡ payload)
    × (h'.vm ≡ vm)
    × (h'.heap_brk ≡ brk)

-- A round of `malloc`, for the answer of `first_fit`.
abbrev IsRound : ℕ → ℕ → Heap → ℕ → ℕ → List Block → Option (Block × List Block) → Type 0
IsRound f n h need hi bs none = (q : ℕ) × (find_fit f h.words need 0 h.freelist ≡ some (q, 0))
IsRound f n h need hi bs (some t) =
    Gives h.payload h.vm h.heap_brk need hi bs t (malloc_loop f (suc n) h need)

Finds-IsRound :
    (f n : ℕ) (h : Heap) (need hi : ℕ) (bs : List Block) (o : Option (Block × List Block))
    → 8 ≤ need
    → need + 24 < 2 ^ 32
    → IsHeap h hi bs
    → IsAnswer need 0 hi bs o
    → Finds h need 0 0 o (find_fit f h.words need 0 h.freelist)
    → IsRound f n h need hi bs o
unfolding malloc_loop
Finds-IsRound f n h need hi bs none n8 n32 w t r = r
Finds-IsRound f n h need hi bs (some (b, left)) n8 n32 w t r =
    let kept = carve_kept h need r.0 b.0 in
    (
      carve h need r.0 b.0,
      ground (arith, r.1, t.above, t.inside, t.enough, w.small),
      record { chain = r.2.linked; spaced = t.spaced; small = w.small; ready = kept.0 ∙ w.ready },
      t,
      r.2.sized,
      kept.1,
      kept.2,
      kept.3,
    )

malloc_loop-IsRound :
    (f n : ℕ) (h : Heap) (need hi : ℕ) (bs : List Block)
    → 8 ≤ need
    → need + 24 < 2 ^ 32
    → length bs < f
    → IsHeap h hi bs
    → IsRound f n h need hi bs (first_fit need bs)
malloc_loop-IsRound f n h need hi bs n8 n32 fuel w =
    Finds-IsRound f n h need hi bs (first_fit need bs) n8 n32 w
      (first_fit-IsAnswer need 0 hi bs n8 w.spaced)
      (find_fit-Finds f h need 0 h.freelist 0 hi bs n8 (omega (arith, n32)) w.small refl w.spaced
        refl w.chain fuel)

-- where the request fits, the block is given
round-Gives :
    (f n : ℕ) (h : Heap) (need hi : ℕ) (bs : List Block) (o : Option (Block × List Block))
    → fits_none need bs ≡ false
    → IsAnswer need 0 hi bs o
    → IsRound f n h need hi bs o
    → (t : Block × List Block) × Gives h.payload h.vm h.heap_brk need hi bs t
        (malloc_loop f (suc n) h need)
round-Gives f n h need hi bs none e t r = cc
round-Gives f n h need hi bs (some taken) e t r = (taken, r)

length-add_last : (b req : ℕ) (bs : List Block) → length (add_last b req bs) ≤ length bs + 1
unfolding add_last
length-add_last b req [] = omega arith
length-add_last b req ((a, s) ∷ []) = ground arith
length-add_last b req ((a, s) ∷ y ∷ ys) = omega (arith, length-add_last b req (y ∷ ys))

-- What `malloc` answers: for a block that fits, for none with room for the break, and for none
-- without, for a request of `req` bytes to the kernel.
abbrev pub IsServed :
    Heap → ℕ → ℕ → ℕ → List Block → Option (Block × List Block) → Bool → Option (Heap × ℕ) → Type 0
IsServed h need req hi bs (some t) room r = Gives h.payload h.vm h.heap_brk need hi bs t r
IsServed h need req hi bs none true r =
    let brk = h.heap_brk + req in
    (t : Block × List Block) × Gives h.payload (record h.vm { brk = brk }) brk need brk
      (add_last h.heap_brk (req) bs) t r
IsServed h need req hi bs none false r = r ≡ some (h, 0)

module _ (f : ℕ) (h : Heap) (need hi : ℕ) (bs : List Block) (n8 : 8 ≤ need)
    (n32 : need ≤ 2 ^ 32 - 4096) (fuel : length bs + 1 < f) (w : IsHeap h hi bs)
    (le : hi ≤ h.heap_brk) (pos : 0 < h.heap_brk) (same : h.vm.brk ≡ h.heap_brk)
    (below : h.heap_brk ≤ user_stack) where
  -- the second round, of a heap that has grown
  second_round :
      (g h' : Heap)
      → g.heap_brk ≡ h.heap_brk
      → g.payload ≡ h.payload
      → IsGrown g h' (request need) bs
      → (t : Block × List Block) × Gives h.payload g.vm
          (h.heap_brk + request need)
          need
          (h.heap_brk + request need)
          (add_last h.heap_brk (request need) bs)
          t
          (malloc_loop f 1 h' need)
  second_round g h' brk bytes t =
      let grown_list = add_last h.heap_brk (request need) bs in
      let w' : IsHeap h' (h.heap_brk + request need) grown_list =
        subst (λ (b : ℕ). IsHeap h' (b + request need) (add_last b (request need) bs)) brk t.heap in
      let (taken, given) =
        round-Gives f 0 h' need (h.heap_brk + request need) grown_list (first_fit need grown_list)
          (fits_none-add_last need h.heap_brk (request need) bs (request_lem need n32).0)
          (first_fit-IsAnswer need 0 (h.heap_brk + request need) grown_list n8 w'.spaced)
          (malloc_loop-IsRound f 0 h' need (h.heap_brk + request need) grown_list n8
            (omega (arith, n32)) (omega (arith, length-add_last h.heap_brk (request need) bs))
            w') in
      (
        taken,
        (
          given.0,
          given.1,
          given.2,
          given.3,
          given.4,
          given.5 ∙ t.bytes ∙ bytes,
          given.6 ∙ t.process,
          given.7 ∙ t.brk ∙ ap (λ (b : ℕ). b + request need) brk,
        ),
      )

  with_answer :
      (v : Vm × ℕ)
      → vm_sbrk h.vm (request need) ≡ v
      → morecore f h need ≡ grown f (record h { vm = v.0 }, v.1) (request need)
  unfolding morecore
  with_answer v e = ap (λ (r : Vm × ℕ). grown f (record h { vm = r.0 }, r.1) (request need)) e

  refused : leb (h.heap_brk + request need) user_stack ≡ false → morecore f h need ≡ some (h, false)
  unfolding grown
  refused e =
      with_answer (h.vm, h.heap_brk)
        (ground (
          arith,
          e,
          same,
          vm_sbrk_lem h.vm (request need) (omega arith) (omega (arith, request_lem need n32)),
        ))
      ∙ ground (arith, below, request_lem need n32)

  granted :
      leb (h.heap_brk + request need) user_stack ≡ true
      → let g : Heap = record h { vm = record h.vm { brk = h.heap_brk + request need } } in
        (h' : Heap) × (morecore f h need ≡ some (h', true)) × IsGrown g h' (request need) bs
  granted e =
      let brk = h.heap_brk + request need in
      let g : Heap = record h { vm = record h.vm { brk = brk } } in
      let (h', eq, t) =
        grown-IsGrown f g (request need) hi le pos (ground (arith, e))
          (omega (arith, request_lem need n32)) bs
          (record { chain = w.chain; spaced = w.spaced; small = w.small; ready = w.ready })
          (omega (arith, fuel)) in
      (
        h',
        with_answer (record h.vm { brk = brk }, brk)
              (ground (
                arith,
                e,
                same,
                vm_sbrk_lem h.vm (request need) (omega arith) (omega (arith, request_lem need n32)),
              ))
            ∙ eq,
        t,
      )

  next_round :
      (q : ℕ) (h' : Heap)
      → find_fit f h.words need 0 h.freelist ≡ some (q, 0)
      → morecore f h need ≡ some (h', true)
      → malloc_loop f 2 h need ≡ malloc_loop f 1 h' need
  unfolding malloc_loop
  next_round q h' found more = ground (arith, found, more)

  no_round :
      (q : ℕ)
      → find_fit f h.words need 0 h.freelist ≡ some (q, 0)
      → morecore f h need ≡ some (h, false)
      → malloc_loop f 2 h need ≡ some (h, 0)
  unfolding malloc_loop
  no_round q found more = ground (arith, found, more)

  round-IsServed :
      (o : Option (Block × List Block)) (room : Bool)
      → leb (h.heap_brk + request need) user_stack ≡ room
      → IsRound f 1 h need hi bs o
      → IsServed h need (request need) hi bs o room (malloc_loop f 2 h need)
  round-IsServed (some t) room e r = r
  round-IsServed none false e r = no_round r.0 r.1 (refused e)
  round-IsServed none true e r =
      let brk = h.heap_brk + request need in
      let g : Heap = record h { vm = record h.vm { brk = brk } } in
      let (h', eq, t) = granted e in
      let (taken, given) = second_round g h' refl refl t in
      (
        taken,
        (
          given.0,
          next_round r.0 h' r.1 eq ∙ given.1,
          given.2,
          given.3,
          given.4,
          given.5,
          given.6,
          given.7,
        ),
      )

  pub rounds-IsServed :
      IsServed h need
        (request need)
        hi
        bs
        (first_fit need bs)
        (leb (h.heap_brk + request need) user_stack)
        (malloc_loop f 2 h need)
  rounds-IsServed =
      round-IsServed (first_fit need bs) (leb (h.heap_brk + request need) user_stack) refl
        (malloc_loop-IsRound f 1 h need hi bs n8 (omega (arith, n32)) (omega (arith, fuel)) w)

malloc_ready :
    (start f : ℕ) (h : Heap) (size : ℕ)
    → h.state ≡ usable
    → align8 size + 8 ≤ 2 ^ 32 - 4096
    → malloc_loop f 2 h (align8 size + 8) ≡ malloc start f h size
unfolding malloc
malloc_ready start f h size e n32 =
    ground (arith, e, ap (λ (n : ℕ). malloc_loop f 2 h n) (unwrapped (align8 size + 8) n32))
  where
    unwrapped : (n : ℕ) → n ≤ 2 ^ 32 - 4096 → n ≡ n % 2 ^ 32
    unwrapped n le = omega arith

-- the bytes of a block for `size` bytes, a multiple of 8 with the header of 8 bytes
abbrev pub block_size : ℕ → ℕ
block_size size = (size + 7) / 8 * 8 + 8

-- whole pages of 4096 bytes that hold `need` bytes, one at least
abbrev pub whole_pages : ℕ → ℕ
whole_pages need = if need == 0 then 4096 else (need + 4095) / 4096 * 4096

align8_block : (size : ℕ) → size < 2 ^ 32 - 8192 → align8 size + 8 ≡ block_size size
align8_block size lt = omega (arith, lt, align8_lem size)

request_pages : (need : ℕ) → need ≤ 2 ^ 32 - 4096 → request need ≡ whole_pages need
request_pages need le = ground (arith, le, request_round need)

pub malloc-IsServed' :
    (start f : ℕ) (h : Heap) (size hi : ℕ) (bs : List Block)
    → size < 2 ^ 32 - 8192
    → length bs + 1 < f
    → IsHeap h hi bs
    → hi ≤ h.heap_brk
    → 0 < h.heap_brk
    → h.vm.brk ≡ h.heap_brk
    → h.heap_brk ≤ user_stack
    → IsServed h
        (align8 size + 8)
        (request (align8 size + 8))
        hi
        bs
        (first_fit (align8 size + 8) bs)
        (leb (h.heap_brk + request (align8 size + 8)) user_stack)
        (malloc start f h size)
malloc-IsServed' start f h size hi bs lt fuel w le pos same below =
    let need = align8 size + 8 in
    let fits : need ≤ 2 ^ 32 - 4096 = omega (arith, lt, align8_lem size) in
    subst
      (IsServed h need (request need) hi bs (first_fit need bs)
        (leb (h.heap_brk + request need) user_stack))
      (malloc_ready start f h size w.ready fits)
      (rounds-IsServed f h need hi bs (omega arith) fits fuel w le pos same below)

-- `malloc` of a usable heap whose free list is `bs`, all below the break, for a size of less than
-- 2^32 - 8192, with a round of fuel for each free block and two more. If a block fits, `malloc`
-- takes the first that does. If none does and the break can grow, `malloc` asks for whole pages,
-- puts them at the end of the list, where they join a last block that ends at the break, and takes the
-- first block that fits then. The block needs `size` rounded up to a
-- multiple of 8 and 8 bytes for the header, and the pages are the fewest of 4096 bytes that hold it. In both cases the answer is the payload of a block that has room for
-- the size and its header and lies outside all free blocks left; the free bytes and the bytes of the
-- block are those that were free or new, the free list stays in address order with no two blocks that
-- touch, and no payload byte changes. If the break cannot grow, the answer is the null pointer and
-- the heap is unchanged.
pub malloc-IsServed :
    (start f : ℕ) (h : Heap) (size hi : ℕ) (bs : List Block)
    → size < 2 ^ 32 - 8192
    → length bs + 1 < f
    → IsHeap h hi bs
    → hi ≤ h.heap_brk
    → 0 < h.heap_brk
    → h.vm.brk ≡ h.heap_brk
    → h.heap_brk ≤ user_stack
    → IsServed h
        (block_size size)
        (whole_pages (block_size size))
        hi
        bs
        (first_fit (block_size size) bs)
        (leb (h.heap_brk + whole_pages (block_size size)) user_stack)
        (malloc start f h size)
malloc-IsServed start f h size hi bs lt fuel w le pos same below =
    subst
      (λ (req : ℕ).
        IsServed h (block_size size) req hi bs (first_fit (block_size size) bs)
          (leb (h.heap_brk + req) user_stack) (malloc start f h size))
      (request_pages (block_size size) (omega (arith, lt)))
      (subst
        (λ (need : ℕ).
          IsServed h need (request need) hi bs (first_fit need bs)
            (leb (h.heap_brk + request need) user_stack) (malloc start f h size))
        (align8_block size lt) (malloc-IsServed' start f h size hi bs lt fuel w le pos same below))
