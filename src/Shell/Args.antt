-- ===== src/Shell/Args.antt =====
-- `build_user_args` and the header of a flat program, of src/kernel/shell.c. The memory is the process's,
-- by address. The stack pointer stays far above 0 for the lines of the shell, and its subtractions are
-- those of the numbers.
use lunaria_os.Base.{
  ℕ, ◌+◌, ◌-◌, ◌*◌, ◌/◌, ◌%◌, ◌^◌, List, [], ◌∷◌, ◌++◌, ◌&&◌, ◌||◌, Bytes, write, length, take,
  bit_and, bit_or, ltb, leb, ◌==◌, if◌then◌else◌,
}
use lunaria_os.Frames.{user_base, user_stack}
use lunaria_os.Shell.{max_args}

-- the bytes of a text with its zero, from the address `a` on
unfoldable pub put_string : List ℕ → ℕ → Bytes → Bytes
put_string [] a m = write m a 0
put_string (c ∷ cs) a m = put_string cs (a + 1) (write m a c)

-- The first loop: the stack pointer, the memory and `ptrs` after it.
unfoldable pub put_strings : List (List ℕ) → ℕ → Bytes → ℕ × Bytes × List ℕ
put_strings [] sp m = (sp, m, [])
put_strings (w ∷ ws) sp m =
    let (sp', m', ptrs) =
      put_strings ws (sp - (length w + 1)) (put_string w (sp - (length w + 1)) m) in
    (sp', m', (sp - (length w + 1)) ∷ ptrs)

-- an `unsigned int`, lowest byte first
abbrev pub put_word : Bytes → ℕ → ℕ → Bytes
put_word m a v =
    write (write (write (write m a (v % 256)) (a + 1) (v / 2 ^ 8 % 256)) (a + 2) (v / 2 ^ 16 % 256))
      (a + 3) (v / 2 ^ 24 % 256)

unfoldable pub put_words : List ℕ → ℕ → Bytes → Bytes
put_words [] a m = m
put_words (v ∷ vs) a m = put_words vs (a + 4) (put_word m a v)

-- The pointers at `argv_ptr`, and the words below them.
unfoldable pub put_block : ℕ → ℕ → Bytes → List ℕ → ℕ × Bytes
put_block argc argv_ptr m ptrs =
    let m1 = put_words (ptrs ++ 0 ∷ []) argv_ptr m in
    let m2 = put_words (0 ∷ []) (argv_ptr - 4) m1 in
    (argv_ptr - 4 - 12, put_words (0 ∷ argc ∷ argv_ptr ∷ []) (argv_ptr - 4 - 12) m2)

-- From the alignment on: `argc` strings are at `ptrs`, above `sp`.
unfoldable pub put_pointers : ℕ → ℕ × Bytes × List ℕ → ℕ × Bytes
put_pointers argc (sp, m, ptrs) = put_block argc (bit_and sp (2 ^ 32 - 4) - (argc + 1) * 4) m ptrs

-- the initial `esp`, and the memory
unfoldable pub build_user_args : List (List ℕ) → Bytes → ℕ × Bytes
build_user_args argv m =
    put_pointers (length (take max_args argv)) (put_strings (take max_args argv) user_stack m)

abbrev pub rd32_le : Bytes → ℕ → ℕ
rd32_le m p =
    bit_or (bit_or (bit_or (m p) (m (p + 1) * 2 ^ 8)) (m (p + 2) * 2 ^ 16)) (m (p + 3) * 2 ^ 24)

abbrev pub tcc_flat_base : ℕ
tcc_flat_base = 0x680000

abbrev pub tcc_flat_max : ℕ
tcc_flat_max = 0x10000

-- what `shell_run_program` makes of an image of `size` bytes at `user_base`
pub data Image : Type 0 where
  plain bad_flat : Image
  flat : ℕ → ℕ → Image

-- the tests of the header
unfoldable pub image_of : Bytes → ℕ → Image
image_of m size =
    let fsize = rd32_le m (user_base + 4) in
    let fentry = rd32_le m (user_base + 8) in
    if leb 12 size
      && (m user_base == b'L')
      && (m (user_base + 1) == b'U')
      && (m (user_base + 2) == b'N')
      && (m (user_base + 3) == b'B')
    then (if ltb (size - 12) fsize
          || ltb tcc_flat_max ((fsize + 12) % 2 ^ 32)
          || ltb user_stack ((tcc_flat_base + fsize) % 2 ^ 32)
          || leb fsize fentry
        then bad_flat
        else flat fsize fentry)
    else plain
