-- ===== src/Frames/Tests.antt =====
-- The allocator on a small machine.
use lunaria_os.Base.{◌≡◌, ◌≢◌, refl, List, [], ◌∷◌, ◌==◌, if◌then◌else◌, arith}
use lunaria_os.Frames.{E820Entry, Pmm, frame_used, alloc_frame, alloc_loop, free_frame}
use lunaria_os.Frames.Bitmap.{free_below}
use lunaria_os.Frames.Alloc.{IsPmm, is_free, Allocated, alloc_frame-Allocated, free-alloc}

-- sixteen frames, of which the first eight and the ninth are used
abbrev small : Pmm
small = record {
  mem_top = 0x10000;
  nframes = 16;
  frames_free = 7;
  bitmap = λ n. if n == 0 then 255 else if n == 1 then 1 else 0;
}

small-IsPmm : IsPmm small
unfolding free_below frame_used
small-IsPmm = record { bytes = λ n. ground arith; counted = refl; small = omega arith }

second_byte : (alloc_frame small).1 ≡ 0x9000
unfolding alloc_frame alloc_loop frame_used
second_byte = refl

alloc_frame-Allocated_example : Allocated small (alloc_frame small)
alloc_frame-Allocated_example = alloc_frame-Allocated small small-IsPmm

some_frame : (alloc_frame small).1 ≢ 0
some_frame = rw second_byte (omega arith)

free-alloc_example :
    let (p', a) = alloc_frame small in
    (is_free (free_frame p' a) 9 ≡ is_free small 9) × ((free_frame p' a).frames_free ≡ 7)
free-alloc_example = free-alloc small 9 small-IsPmm some_frame

-- the map of a machine with 16 MiB
abbrev bios_map : List E820Entry
bios_map =
    record { base_lo = 0; base_hi = 0; len_lo = 0x9fc00; len_hi = 0; type = 1; attrs = 0 }
    ∷ record { base_lo = 0xf0000; base_hi = 0; len_lo = 0x10000; len_hi = 0; type = 2; attrs = 0 }
    ∷ record { base_lo = 0x100000; base_hi = 0; len_lo = 0xf00000; len_hi = 0; type = 1; attrs = 0 }
    ∷ []
