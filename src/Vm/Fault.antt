-- ===== src/Vm/Fault.antt =====
-- `vm_fault`: demand paging, and that it touches nothing but the window.
use lunaria_os.Base.{
  ltb, ◌∙◌, ℕ, ◌+◌, ◌/◌, ◌%◌, ◌^◌, ◌≡◌, refl, Bool, true, false, not, ◌&&◌, arith, ◌==◌,
  if◌then◌else◌, Bytes, in_range, each_lem, inl, inr, Bool-cases,
}
use lunaria_os.Frames.{Pmm, alloc_frame, page_size}
use lunaria_os.Frames.Alloc.{IsPmm, is_free, Allocated, none_left, taken, alloc_frame-Allocated}
use lunaria_os.Base.Bits.{and_ones}
use lunaria_os.Vm.{
  Vm, slot, page_floor, pde_index, vm_fault, fill, is_fillable, pte_slot, zero_page,
}
use lunaria_os.Vm.Entries.{entry_for_lem}

pub zero_page_lem :
    (frame : ℕ) (words : Bytes) (j : ℕ)
    → zero_page frame words j ≡ (if in_range (frame / 4) (frame / 4 + 1024) j then 0 else words j)
unfolding zero_page
zero_page_lem frame words j = each_lem (λ i old. 0) 1024 (frame / 4) words j

-- the frame of an address
abbrev pub frame_of : ℕ → ℕ
frame_of addr = addr / page_size

-- whether an address lies in the window of user programs, from 4 to 8 MiB, in a page that is not present
-- while the page table for it is (the lowest bit of an entry says whether it is present)
abbrev pub should_fill : Vm → ℕ → Bool
should_fill m addr =
    (not (ltb addr 0x40_0000) && ltb addr 0x80_0000)
    && ((m.words (slot (page_floor m.cr3) (pde_index addr)) % 2 == 1)
        && (m.words (pte_slot m addr) % 2 == 0))

is_fillable_lem : (m : Vm) (addr : ℕ) → is_fillable m addr ≡ should_fill m addr
unfolding is_fillable
is_fillable_lem m addr = ground (
  arith,
  and_ones 1 (m.words (slot (page_floor m.cr3) (pde_index addr))),
  and_ones 1 (m.words (pte_slot m addr)),
)

-- What `vm_fault` did. A fatal fault changes nothing. A filled
-- one takes a free frame for the page: the frame is zeroed, the page table entry of the address
-- gets it with the flags present, writable and user, no other word changes, and no other frame.
pub data Faulted (m : Vm) (addr : ℕ) : Vm × Bool → Type 0 where
  fatal : should_fill m addr ≡ false → Faulted m addr (m, false)
  no_memory : ((f : ℕ) → is_free m.pmm f ≡ false) → Faulted m addr (m, false)
  mapped :
      (m' : Vm) (frame : ℕ)
      → should_fill m addr ≡ true
      → frame % page_size ≡ 0
      → is_free m.pmm (frame_of frame) ≡ true
      → ((f : ℕ) → is_free m'.pmm f ≡ (is_free m.pmm f && not (f == frame_of frame)))
      → IsPmm m'.pmm
      → ((w : ℕ)
          → m'.words w ≡ (
              if w == pte_slot m addr
              then frame + 7
              else if in_range (frame / 4) (frame / 4 + 1024) w
              then 0
              else m.words w))
      → m' ≡ record m { pmm = m'.pmm; words = m'.words; fault_count = (m.fault_count + 1) % 2 ^ 32 }
      → Faulted m addr (m', true)

fill-Faulted :
    (m : Vm) (addr : ℕ) (out : Pmm × ℕ)
    → Allocated m.pmm out
    → should_fill m addr ≡ true
    → is_free m.pmm 0 ≡ false
    → Faulted m addr (fill m addr out)
unfolding fill
fill-Faulted m addr out (none_left h) ok zero_used = no_memory h
fill-Faulted m addr out (taken p' i a at free below after count frames v') ok zero_used =
    let ne : (a == 0) ≡ false = ground arith in
    let at_i : frame_of a ≡ i = omega arith in
    let aligned : a % page_size ≡ 0 = omega arith in
    rw ne (
      mapped _ a ok aligned (rw at_i free) (λ f. rw at_i (after f)) v'
        (λ w. ground (arith, entry_for_lem a true aligned, zero_page_lem a m.words w)) refl)

-- `vm_fault` at any address, with a consistent allocator that never gives out frame 0 (it is in the
-- low megabyte): outside the window of user programs from 4 to 8 MiB, where the page is present already, where its page table
-- is not, and where no frame is left, the fault is fatal and nothing changes; otherwise the page is mapped to a
-- fresh zeroed frame and nothing else changes.
pub vm_fault-Faulted :
    (m : Vm) (addr : ℕ) → IsPmm m.pmm → is_free m.pmm 0 ≡ false → Faulted m addr (vm_fault m addr)
unfolding vm_fault
vm_fault-Faulted m addr v zero_used = elim (Bool-cases (should_fill m addr)) [
  | inl ok ↦
      rw (is_fillable_lem m addr ∙ ok)
        (fill-Faulted m addr (alloc_frame m.pmm) (alloc_frame-Allocated m.pmm v) ok zero_used)
  | inr no_ ↦ rw (is_fillable_lem m addr ∙ no_) (fatal no_)
]
