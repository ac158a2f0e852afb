-- ===== src/Vm.antt =====
-- Paging and address spaces of src/kernel/memory.c. Physical memory is an array of 32-bit words, the
-- word at the address `a` under the index `a / 4`; the kernel maps it one to one. The state has the
-- frame allocator, that memory, the address of the kernel's page directory, the register CR3, and
-- the statics `cur_dir`, `brk` and `fault_count`.
pub mod Entries
pub mod Fault
pub mod Spaces
pub mod Break
mod Tests
use lunaria_os.Base.{
  ℕ, zero, suc, ◌+◌, ◌-◌, ◌*◌, ◌/◌, ◌%◌, ◌^◌, List, [], ◌∷◌, Bool, true, false, not, ◌&&◌, ◌||◌,
  bit_and, bit_or, Option, none, some, Bytes, write, each, copy, ltb, leb, ◌==◌, if◌then◌else◌,
}
use lunaria_os.Frames.{
  E820Entry, is_skipped, Pmm, alloc_frame, free_frame, page_size, page_floor, low_end, user_base,
  user_top, user_stack,
}

pub record Vm : Type 0 where
  pub pmm : Pmm
  pub words : Bytes
  pub page_dir : ℕ
  pub cr3 : ℕ
  pub cur_dir : ℕ
  pub brk : ℕ
  pub fault_count : ℕ

abbrev pub is_present : ℕ → Bool
is_present entry = not (bit_and entry 1 == 0)

-- `frame | 0x3 | (user ? 0x4 : 0)`
unfoldable pub entry_for : ℕ → Bool → ℕ
entry_for frame user = bit_or (bit_or frame 3) (if user then 4 else 0)

-- the index of the word of entry `i` in the table at the address `table`
abbrev pub slot : ℕ → ℕ → ℕ
slot table i = table / 4 + i

-- `memset((void *)frame, 0, PAGE_SIZE)`
unfoldable pub zero_page : ℕ → Bytes → Bytes
zero_page frame words = each (λ i old. 0) 1024 (frame / 4) words

abbrev pub pde_index : ℕ → ℕ
pde_index addr = addr / 2 ^ 22

-- `(addr >> 12) & 0x3FF`
abbrev pub pte_index : ℕ → ℕ
pte_index addr = bit_and (addr / 2 ^ 12) 0x3ff

-- the store of the page table entry that ends a round of `map_range`
unfoldable pub set_pte : Vm → ℕ → Bool → Vm
set_pte m v user =
    let table = page_floor (m.words (slot m.page_dir (pde_index v))) in
    record m { words = write m.words (slot table (pte_index v)) (entry_for v user) }

-- One round of `map_range`; `none` is its early return, which happens with nothing changed.
unfoldable pub map_page : Vm → ℕ → Bool → Option Vm
map_page m v user =
    let at_ = slot m.page_dir (pde_index v) in
    let pde = m.words at_ in
    let (pmm', pt) = alloc_frame m.pmm in
    let fresh : Vm = record m {
      pmm = pmm';
      words = write (zero_page pt m.words) at_ (entry_for pt user);
    } in
    if not (is_present pde)
    then (if pt == 0 then none else some (set_pte fresh v user))
    else if user
    then some (set_pte m v user)
    else some
        (set_pte (record m { words = write m.words at_ (bit_and pde (2 ^ 32 - 1 - 4)) }) v user)

-- The loop of `map_range` with fuel; `none` means that the fuel ran out. The last clause is the early
-- return.
unfoldable pub map_loop : ℕ → ℕ → ℕ → Bool → Vm → Option Vm
map_loop zero v to user m = none
map_loop (suc f) v to user m =
    let rest : Option Vm = elim (map_page m v user) [
      | none ↦ some m
      | some m' ↦ map_loop f ((v + page_size) % 2 ^ 32) to user m'
    ] in
    if ltb v to then rest else some m

-- enough rounds for every page below 4 GiB, and the test that ends the loop
abbrev pub all_pages : ℕ
all_pages = 2 ^ 20 + 1

unfoldable pub map_range : ℕ → ℕ → Bool → Vm → Option Vm
map_range from to user m = map_loop all_pages (page_floor from) to user m

infixl 5 ◌>>=◌
abbrev pub ◌>>=◌ : Option Vm → (Vm → Option Vm) → Option Vm
none >>= f = none
some m >>= f = f m

unfoldable pub map_supervisor : ℕ → ℕ → Vm → Option Vm
map_supervisor from to m =
    let below : Vm → Option Vm = λ m.
      if ltb from user_base
      then map_range from (if ltb to user_base then to else user_base) false m
      else some m in
    let above : Vm → Option Vm = λ m.
      if ltb user_top to
      then map_range (if ltb user_top from then from else user_top) to false m
      else some m in
    if leb to from then some m else (below m >>= above)

unfoldable pub map_usable : List E820Entry → Vm → Option Vm
map_usable [] m = some m
map_usable (e ∷ es) m =
    let end = (e.base_lo + e.len_lo) % 2 ^ 32 in
    let base = if ltb e.base_lo low_end then low_end else e.base_lo in
    let skip = is_skipped e || (ltb end e.base_lo || leb end low_end) in
    (if skip then some m else map_supervisor base ((base + e.len_lo) % 2 ^ 32) m) >>= map_usable es

-- Without the test build's log. The last step turns paging on, with the kernel's directory in CR3.
pub paging_init : List E820Entry → Vm → Option Vm
paging_init es m =
    map_range 0 low_end false (record m { words = zero_page m.page_dir m.words })
    >>= map_usable es
    >>= λ m. some (record m { cr3 = m.page_dir })

abbrev pub user_pde : ℕ
user_pde = 1

pub vm_switch : Vm → ℕ → Vm
vm_switch m dir = record m { cr3 = dir }

-- `vm_create` from the answers of its two calls of `alloc_frame`: the directory and the table. The
-- loop over the window's directory entries has one round: the window is the 4 MiB of entry 1.
unfoldable pub fill_table : Vm → ℕ → Pmm × ℕ → Vm × ℕ
fill_table m d (pmm', pt) =
    let copied = copy 1024 (d / 4) (m.page_dir / 4) m.words in
    let filled = write (zero_page pt copied) (slot d user_pde) (entry_for pt true) in
    if pt == 0
    then (record m { pmm = free_frame pmm' d; words = copied }, 0)
    else (record m { pmm = pmm'; words = filled; brk = 0 }, d)

unfoldable pub fill_directory : Vm → Pmm × ℕ → Vm × ℕ
fill_directory m (pmm', d) =
    if d == 0 then (record m { pmm = pmm' }, 0) else fill_table m d (alloc_frame pmm')

unfoldable pub vm_create : Vm → Vm × ℕ
vm_create m = fill_directory m (alloc_frame m.pmm)

-- the inner loop of `vm_destroy`: `n` entries of the table from entry `j` on
unfoldable pub free_entries : Bytes → ℕ → ℕ → ℕ → Pmm → Pmm
free_entries words table j zero p = p
free_entries words table j (suc n) p =
    let entry = words (slot table j) in
    free_entries words table (j + 1) n
      (if is_present entry then free_frame p (page_floor entry) else p)

unfoldable pub vm_destroy : Vm → ℕ → Vm
vm_destroy m dir =
    let pde = m.words (slot dir user_pde) in
    let table = page_floor pde in
    let emptied : Vm = record m {
      pmm = free_frame (free_frame (free_entries m.words table 0 1024 m.pmm) table) dir;
      words = write m.words (slot dir user_pde) 0;
    } in
    if (dir == 0) || (dir == m.page_dir)
    then m
    else if not (is_present pde)
    then record m { pmm = free_frame m.pmm dir }
    else emptied

unfoldable pub vm_attach : Vm → ℕ → Vm
vm_attach m dir = record m { cur_dir = dir; cr3 = dir }

unfoldable pub vm_detach : Vm → Vm
vm_detach m =
    if m.cur_dir == 0 then m else vm_destroy (record m { cur_dir = 0; cr3 = m.page_dir }) m.cur_dir

-- the index of the page table entry of an address, in the directory that CR3 names
abbrev pub pte_slot : Vm → ℕ → ℕ
pte_slot m addr =
    slot (page_floor (m.words (slot (page_floor m.cr3) (pde_index addr)))) (pte_index addr)

-- what `vm_fault` asks before it looks for a frame
unfoldable pub is_fillable : Vm → ℕ → Bool
is_fillable m addr =
    (leb user_base addr && ltb addr user_top)
    && (is_present (m.words (slot (page_floor m.cr3) (pde_index addr)))
        && not (is_present (m.words (pte_slot m addr))))

-- `vm_fault` with the answer of `alloc_frame`. The Boolean is the result: mapped, or fatal.
unfoldable pub fill : Vm → ℕ → Pmm × ℕ → Vm × Bool
fill m addr (pmm', frame) =
    let mapped : Vm = record m {
      pmm = pmm';
      words = write (zero_page frame m.words) (pte_slot m addr) (entry_for frame true);
      fault_count = (m.fault_count + 1) % 2 ^ 32;
    } in
    if frame == 0 then (record m { pmm = pmm' }, false) else (mapped, true)

unfoldable pub vm_fault : Vm → ℕ → Vm × Bool
vm_fault m addr = if not (is_fillable m addr) then (m, false) else fill m addr (alloc_frame m.pmm)

unfoldable pub vm_note_load : Vm → ℕ → Vm
vm_note_load m size =
    let brk = (user_base + page_floor ((size + page_size - 1) % 2 ^ 32)) % 2 ^ 32 in
    record m { brk = if ltb brk user_base then user_base else brk }

unfoldable pub vm_sbrk : Vm → ℕ → Vm × ℕ
vm_sbrk m inc =
    if inc == 0
    then (m, m.brk)
    else if ltb ((user_top + 2 ^ 32 - m.brk) % 2 ^ 32) inc
    then (m, m.brk)
    else if ltb user_stack ((m.brk + inc) % 2 ^ 32)
    then (m, m.brk)
    else (record m { brk = (m.brk + inc) % 2 ^ 32 }, (m.brk + inc) % 2 ^ 32)

pub vm_faults : Vm → ℕ
vm_faults m = m.fault_count
