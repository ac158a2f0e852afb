-- ===== src/Vm/Tests.antt =====
-- Paging on a small machine.
use lunaria_os.Base.{◌≡◌, ◌≢◌, refl, ◌==◌, if◌then◌else◌, arith}
use lunaria_os.Frames.{frame_used, alloc_frame, alloc_loop, frame_set}
use lunaria_os.Frames.Bitmap.{free_below}
use lunaria_os.Frames.Alloc.{is_free}
use lunaria_os.Vm.{Vm, vm_fault, vm_create, fill_directory, fill_table, vm_destroy, vm_sbrk}
use lunaria_os.Vm.Fault.{Faulted, vm_fault-Faulted}
use lunaria_os.Vm.Spaces.{IsVm, Created, vm_create-Created, destroy-create}
use lunaria_os.Vm.Break.{vm_sbrk_lem}

-- Sixteen frames, the first eight used: the kernel's directory in frame 1, a process's directory in
-- frame 2 with its table in frame 3.
abbrev machine : Vm
machine = record {
  pmm = record {
    mem_top = 0x10000;
    nframes = 16;
    frames_free = 8;
    bitmap = λ n. if n == 0 then 255 else 0;
  };
  words = λ w. if w == 0x801 then 0x3007 else 0;
  page_dir = 0x1000;
  cr3 = 0x2000;
  cur_dir = 0x2000;
  brk = 0x401000;
  fault_count = 0;
}

machine-IsVm : IsVm machine
unfolding free_below frame_used is_free
machine-IsVm = record {
  pmm = record { bytes = λ n. ground arith; counted = refl; small = omega arith };
  zero_used = refl;
  dir_aligned = refl;
  dir_used = refl;
}

vm_fault-Faulted_example : Faulted machine 0x405123 (vm_fault machine 0x405123)
vm_fault-Faulted_example = vm_fault-Faulted machine 0x405123 machine-IsVm.pmm machine-IsVm.zero_used

vm_create-Created_example : Created machine (vm_create machine)
vm_create-Created_example = vm_create-Created machine machine-IsVm

new_dir : (vm_create machine).1 ≡ 0x8000
unfolding vm_create fill_directory fill_table alloc_frame alloc_loop frame_used frame_set
new_dir = refl

new_space : (vm_create machine).1 ≢ 0
new_space = rw new_dir (omega arith)

destroy-create_example :
    let (m', d) = vm_create machine in
    (is_free (vm_destroy m' d).pmm 8 ≡ is_free machine.pmm 8)
    × ((vm_destroy m' d).pmm.frames_free ≡ 8)
destroy-create_example = destroy-create machine 8 machine-IsVm new_space

vm_sbrk_lem_example : vm_sbrk machine 0x2000 ≡ (record machine { brk = 0x403000 }, 0x403000)
vm_sbrk_lem_example = vm_sbrk_lem machine 0x2000 (omega arith) (omega arith)
