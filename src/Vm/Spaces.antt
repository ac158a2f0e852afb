-- ===== src/Vm/Spaces.antt =====
-- Address spaces: what `vm_create` builds, and that `vm_destroy` gives everything back.
use lunaria_os.Base.{
  ℕ, zero, suc, ◌+◌, ◌-◌, ◌*◌, ◌/◌, ◌%◌, ◌^◌, ◌<◌, ◌≤◌, ◌≡◌, ◌≢◌, ◌⊎◌, refl, ap, ◌∙◌, true, false,
  not, ◌&&◌, arith, ◌==◌, if◌then◌else◌, Bytes, in_range, copy, copy_lem, inl, inr,
}
use native.Mathlib.Decide.{dec_le}
use lunaria_os.Frames.{Pmm, alloc_frame, free_frame, page_size, page_floor}
use lunaria_os.Frames.Alloc.{
  IsPmm, is_free, is_free-lt, Allocated, none_left, taken, alloc_frame-Allocated,
  free_frame-IsFreed,
}
use lunaria_os.Vm.{
  Vm, vm_create, fill_directory, fill_table, vm_destroy, free_entries, slot, user_pde, is_present,
}
use lunaria_os.Vm.Entries.{entry_for_lem, is_present-entry_for, page_floor-entry_for}
use lunaria_os.Vm.Fault.{zero_page_lem, frame_of}

-- The kernel's state once paging is set up: a consistent allocator that gives out neither frame 0 nor
-- the kernel's page directory, which is page aligned.
pub record IsVm (m : Vm) : Type 0 where
  pub pmm : IsPmm m.pmm
  pub zero_used : is_free m.pmm 0 ≡ false
  pub dir_aligned : m.page_dir % page_size ≡ 0
  pub dir_used : is_free m.pmm (frame_of m.page_dir) ≡ false

-- The state `m'` with the new directory `d` and its table `pt`.
pub record IsCreated (m m' : Vm) (d pt : ℕ) : Type 0 where
  pub dir_page : d % page_size ≡ 0
  pub table_page : pt % page_size ≡ 0
  pub dir_free : is_free m.pmm (frame_of d) ≡ true
  pub table_free : is_free m.pmm (frame_of pt) ≡ true
  pub apart : (frame_of d == frame_of pt) ≡ false
  pub frames :
      (f : ℕ)
      → is_free m'.pmm f ≡ (is_free m.pmm f && not (f == frame_of d) && not (f == frame_of pt))
  pub count : m'.pmm.frames_free + 2 ≡ m.pmm.frames_free
  pub valid : IsPmm m'.pmm
  -- the window's entry, the empty table, the copy of the kernel's directory, all else unchanged
  pub words :
      (w : ℕ)
      → m'.words w ≡ (
          if w == slot d user_pde
          then pt + 7
          else if in_range (pt / 4) (pt / 4 + 1024) w
          then 0
          else if in_range (d / 4) (d / 4 + 1024) w
          then m.words (m.page_dir / 4 + (w - d / 4))
          else m.words w)
  pub break : m'.brk ≡ 0
  pub same_dir : m'.page_dir ≡ m.page_dir
  pub size : m'.pmm.nframes ≡ m.pmm.nframes

-- The result of `vm_create`: either it fails with 0 and no frame has changed hands, or it answers the
-- address of a new directory.
pub data Created (m : Vm) : Vm × ℕ → Type 0 where
  failed :
      (m' : Vm)
      → ((f : ℕ) → is_free m'.pmm f ≡ is_free m.pmm f)
      → m'.pmm.frames_free ≡ m.pmm.frames_free
      → IsPmm m'.pmm
      → Created m (m', 0)
  created : (m' : Vm) (d pt : ℕ) → d ≢ 0 → IsCreated m m' d pt → Created m (m', d)

ne_of_free :
    (p : Pmm) (d : ℕ) {i k : ℕ}
    → frame_of d ≡ i
    → is_free p i ≡ true
    → is_free p k ≡ false
    → frame_of d ≢ k
ne_of_free p d at free used same = cc

apart_pages :
    (a b : ℕ)
    → a % page_size ≡ 0
    → b % page_size ≡ 0
    → frame_of a ≢ frame_of b
    → (a / 4 ≤ b / 4) ⊎ (b / 4 + 1024 ≤ a / 4)
apart_pages a b ha hb ne = elim (dec_le (a / 4) (b / 4)) [
  | yes h ↦ inl h
  | no h ↦ inr (omega arith)
]

fill_table-Created :
    (m : Vm) (p1 : Pmm) (i d : ℕ) (out : Pmm × ℕ)
    → IsVm m
    → d ≡ i * page_size
    → (d == 0) ≡ false
    → is_free m.pmm i ≡ true
    → ((j : ℕ) → is_free p1 j ≡ (is_free m.pmm j && not (j == i)))
    → p1.frames_free + 1 ≡ m.pmm.frames_free
    → p1.nframes ≡ m.pmm.nframes
    → IsPmm p1
    → Allocated p1 out
    → Created m (fill_table m d out)
unfolding fill_table
fill_table-Created m p1 i d out v at ne free after count size v1 (none_left none_free) =
    let at_i : frame_of d ≡ i = omega arith in
    let freed = free_frame-IsFreed p1 d 0 v1 in
    let lt = is_free-lt m.pmm i free in
    failed _ (λ f. ground (arith, (free_frame-IsFreed p1 d f v1).frames, after f))
      (ground (arith, freed.count, after i)) freed.valid
fill_table-Created m p1 i d out v at ne free after count size v1
      (taken p2 k pt at' free' below' after' count' size' v2) =
    let at_i : frame_of d ≡ i = omega arith in
    let at_k : frame_of pt ≡ k = omega arith in
    let table_page : pt % page_size ≡ 0 = omega arith in
    let ne' : (pt == 0) ≡ false = ground (arith, after k, v.zero_used) in
    let other : frame_of d ≢ frame_of m.page_dir = ne_of_free m.pmm d at_i free v.dir_used in
    let copied = copy 1024 (d / 4) (m.page_dir / 4) m.words in
    let copied_lem = λ (w : ℕ).
      copy_lem 1024 (d / 4) (m.page_dir / 4) m.words w
        (apart_pages d m.page_dir (omega arith) v.dir_aligned other) in
    rw ne' (
      created _ d pt (ground arith) (record {
        dir_page = omega arith;
        table_page = table_page;
        dir_free = rw at_i free;
        table_free = ground (arith, after k);
        apart = ground (arith, after k);
        frames = λ f. ground (arith, after f, after' f);
        count = omega arith;
        valid = v2;
        words = λ w.
            ground
              (arith, entry_for_lem pt true table_page, zero_page_lem pt copied w, copied_lem w);
        break = refl;
        same_dir = refl;
        size = size' ∙ size;
      }))

fill_directory-Created :
    (m : Vm) (out : Pmm × ℕ) → IsVm m → Allocated m.pmm out → Created m (fill_directory m out)
unfolding fill_directory
fill_directory-Created m out v (none_left none_free) = failed m (λ f. refl) refl v.pmm
fill_directory-Created m out v (taken p1 i d at free below after count size v1) =
    let ne : (d == 0) ≡ false = ground (arith, v.zero_used) in
    rw ne (
      fill_table-Created m p1 i d (alloc_frame p1) v at ne free after count size v1
        (alloc_frame-Allocated p1 v1))

-- `vm_create` on a kernel with paging set up: it either fails and leaves the set of free frames and
-- the counter as they were, or it answers a new directory, which is a copy of the kernel's but for
-- the window's entry; that points to an empty table, present, writable and for user programs.
pub vm_create-Created : (m : Vm) → IsVm m → Created m (vm_create m)
unfolding vm_create
vm_create-Created m v =
    fill_directory-Created m (alloc_frame m.pmm) v (alloc_frame-Allocated m.pmm v.pmm)

-- A table with no present entry gives back no frame.
free_entries-empty :
    (words : Bytes) (table j n : ℕ) (p : Pmm)
    → ((k : ℕ) → k < n → words (slot table (j + k)) ≡ 0)
    → free_entries words table j n p ≡ p
unfolding free_entries
free_entries-empty words table j zero p h = refl
free_entries-empty words table j (suc n) p h = ground (
  arith,
  h 0,
  free_entries-empty words table (j + 1) n p (λ k lt. ap words (shift k) ∙ h (suc k) (omega arith)),
)
  where
    shift : (k : ℕ) → slot table (j + 1 + k) ≡ slot table (j + suc k)
    shift k = omega arith

-- `vm_destroy` of a space whose window has an empty table
pmm-vm_destroy :
    (m : Vm) (d pt : ℕ)
    → (d == 0) ≡ false
    → (d == m.page_dir) ≡ false
    → m.words (slot d user_pde) ≡ pt + 7
    → is_present (pt + 7) ≡ true
    → page_floor (pt + 7) ≡ pt
    → free_entries m.words pt 0 1024 m.pmm ≡ m.pmm
    → (vm_destroy m d).pmm ≡ free_frame (free_frame m.pmm pt) d
unfolding vm_destroy
pmm-vm_destroy m d pt ne other pde there table empty = rw (ne, other, pde, there, table, empty)

destroy_created :
    (m m' : Vm) (d pt f : ℕ)
    → IsVm m
    → d ≢ 0
    → IsCreated m m' d pt
    → (is_free (vm_destroy m' d).pmm f ≡ is_free m.pmm f)
      × ((vm_destroy m' d).pmm.frames_free ≡ m.pmm.frames_free)
destroy_created m m' d pt f v ne c =
    let pde : m'.words (slot d user_pde) ≡ pt + 7 = ground (arith, c.words (slot d user_pde)) in
    let small : pt < 2 ^ 32 =
      omega (arith, v.pmm.small, is_free-lt m.pmm (frame_of pt) c.table_free) in
    let entry = entry_for_lem pt true c.table_page in
    let there : is_present (pt + 7) ≡ true =
      rw entry at (is_present-entry_for pt true c.table_page) in
    let table : page_floor (pt + 7) ≡ pt =
      rw entry at (page_floor-entry_for pt true c.table_page small) in
    let empty : free_entries m'.words pt 0 1024 m'.pmm ≡ m'.pmm =
      free_entries-empty m'.words pt 0 1024 m'.pmm
        (λ k lt. ground (arith, c.words (slot pt (0 + k)))) in
    let first = free_frame-IsFreed m'.pmm pt f c.valid in
    let p1 = free_frame m'.pmm pt in
    let second = free_frame-IsFreed p1 d f first.valid in
    let out =
      pmm-vm_destroy m' d pt (ground arith) (ground (arith, c.same_dir, v.dir_used, c.dir_free)) pde
        there table empty in
    rw out (
      ground (
        arith,
        first.frames,
        second.frames,
        first.size,
        c.size,
        c.frames f,
        is_free-lt m.pmm (frame_of pt) c.table_free,
        is_free-lt m.pmm (frame_of d) c.dir_free,
      ),
      ground (
        arith,
        first.count,
        second.count,
        first.size,
        c.size,
        c.count,
        c.frames (frame_of pt),
        c.frames (frame_of d),
        (free_frame-IsFreed m'.pmm pt (frame_of d) c.valid).frames,
        c.apart,
        is_free-lt m.pmm (frame_of pt) c.table_free,
        is_free-lt m.pmm (frame_of d) c.dir_free,
      ),
    )

-- Destroying a space that was just created restores the set of free frames and the counter, as the
-- self-test of `paging_init` expects.
pub destroy-create :
    (m : Vm) (f : ℕ)
    → IsVm m
    → (vm_create m).1 ≢ 0
    → let (m', d) = vm_create m in
      (is_free (vm_destroy m' d).pmm f ≡ is_free m.pmm f)
      × ((vm_destroy m' d).pmm.frames_free ≡ m.pmm.frames_free)
destroy-create m f v h = go (vm_create m) (vm_create-Created m v) h
  where
    go :
        (out : Vm × ℕ)
        → Created m out
        → out.1 ≢ 0
        → (is_free (vm_destroy out.0 out.1).pmm f ≡ is_free m.pmm f)
          × ((vm_destroy out.0 out.1).pmm.frames_free ≡ m.pmm.frames_free)
    go out (failed m' frames count valid) h = absurd (h refl)
    go out (created m' d pt ne c) h = destroy_created m m' d pt f v ne c
