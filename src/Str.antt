-- ===== src/Str.antt =====
-- The kernel's string library, src/lib/string.h: the memory functions, and decimal numbers. A buffer
-- is an array of bytes from its start; both pointers of memmove go into one memory.
pub mod Move
pub mod Decimal
pub mod Search
mod Tests
use lunaria_os.Base.{
  ℕ, zero, suc, ◌+◌, ◌-◌, ◌*◌, ◌/◌, ◌%◌, ◌^◌, Bool, true, false, ◌&&◌, ◌||◌, Option, none, some,
  Bytes, write, each, copy, ltb, leb, ◌==◌, if◌then◌else◌,
}
use lunaria_os.Base.Int.{ℤ, pos, negsuc}

unfoldable pub memset : Bytes → ℕ → ℕ → Bytes
memset d c n = each (λ i old. c % 256) n 0 d

unfoldable pub memcpy : Bytes → Bytes → ℕ → Bytes
memcpy d s n = each (λ i old. s i) n 0 d

-- the loop of `memmove` from the end: `n` bytes are left
unfoldable pub copy_back : ℕ → ℕ → ℕ → Bytes → Bytes
copy_back zero d s m = m
copy_back (suc i) d s m = copy_back i d s (write m (d + i) (m (s + i)))

unfoldable pub memmove : Bytes → ℕ → ℕ → ℕ → Bytes
memmove m d s n =
    if (d == s) || (n == 0) then m else if ltb d s then copy n d s m else copy_back n d s m

-- The loop of `memcmp` from byte `i` on: the two bytes that differ first.
unfoldable pub differ_at : Bytes → Bytes → ℕ → ℕ → Option ℕ
differ_at x y i zero = none
differ_at x y i (suc n) = let rest = differ_at x y (i + 1) n in if x i == y i then rest else some i

abbrev pub difference : ℕ → ℕ → ℤ
difference a b = if leb b a then pos (a - b) else negsuc (b - a - 1)

unfoldable pub memcmp : Bytes → Bytes → ℕ → ℤ
memcmp x y n = elim (differ_at x y 0 n) [ none ↦ pos 0 | some i ↦ difference (x i) (y i) ]

-- the index that `memchr` returns a pointer to, from byte `i` on
unfoldable pub memchr_from : Bytes → ℕ → ℕ → ℕ → Option ℕ
memchr_from p c i zero = none
memchr_from p c i (suc n) =
    let rest = memchr_from p c (i + 1) n in if p i == c % 256 then some i else rest

unfoldable pub memchr : Bytes → ℕ → ℕ → Option ℕ
memchr p c n = memchr_from p c 0 n

unfoldable pub strnlen_from : Bytes → ℕ → ℕ → ℕ
strnlen_from s i zero = i
strnlen_from s i (suc n) = let rest = strnlen_from s (i + 1) n in if s i == 0 then i else rest

unfoldable pub strnlen : Bytes → ℕ → ℕ
strnlen s max = strnlen_from s 0 max

-- The first loop of `itoa`: the digits of `m` from the lowest on, from place `i` of the buffer on,
-- with a round of fuel for each. A word has at most ten.
unfoldable pub put_digits : ℕ → ℕ → ℕ → Bytes → Bytes × ℕ
put_digits zero m i buf = (buf, i)
put_digits (suc f) m i buf =
    let one = write buf i (48 + m % 10) in
    let rest = put_digits f (m / 10) (i + 1) one in if m / 10 == 0 then (one, i + 1) else rest

-- The last loop of `itoa`, which turns `i` bytes round, from `j` on.
unfoldable pub swap_loop : ℕ → ℕ → ℕ → Bytes → Bytes
swap_loop zero j i buf = buf
swap_loop (suc n) j i buf =
    swap_loop n (j + 1) i (write (write buf j (buf (i - 1 - j))) (i - 1 - j) (buf j))

unfoldable pub finish : Bytes × ℕ → Bytes
finish (buf, i) = swap_loop (i / 2) 0 i (write buf i 0)

unfoldable pub signed : Bool → Bytes × ℕ → Bytes × ℕ
signed false r = r
signed true (buf, i) = (write buf i 45, i + 1)

unfoldable pub itoa : ℤ → Bytes → Bytes
itoa (pos n) buf = finish (signed false (put_digits 10 (n % 2 ^ 32) 0 buf))
itoa (negsuc n) buf = finish (signed true (put_digits 10 ((n + 1) % 2 ^ 32) 0 buf))

-- The loop of `atoi` from byte `i` on, on fuel; `n` is the pattern of the `int` so far.
unfoldable pub atoi_from : ℕ → Bytes → ℕ → ℕ → Option ℕ
atoi_from zero s i n = none
atoi_from (suc f) s i n =
    let rest = atoi_from f s (i + 1) ((n * 10 + (s i - 48)) % 2 ^ 32) in
    if leb 48 (s i) && leb (s i) 57 then rest else some n

unfoldable pub atoi : ℕ → Bytes → Option ℕ
atoi f s = atoi_from f s 0 0

-- The loop of `strlen` from byte `i` on, on fuel.
unfoldable pub strlen_from : ℕ → Bytes → ℕ → Option ℕ
strlen_from zero s i = none
strlen_from (suc f) s i = let rest = strlen_from f s (i + 1) in if s i == 0 then some i else rest

unfoldable pub strlen : ℕ → Bytes → Option ℕ
strlen f s = strlen_from f s 0

-- The first loop of `strncpy` from byte `i` on, with room for `n` more.
unfoldable pub copy_text : Bytes → ℕ → ℕ → Bytes → Bytes × ℕ
copy_text s zero i d = (d, i)
copy_text s (suc n) i d =
    let rest = copy_text s n (i + 1) (write d i (s i)) in if s i == 0 then (d, i) else rest

-- the second loop, which fills the buffer of `n` bytes up with zeros
unfoldable pub pad : ℕ → Bytes × ℕ → Bytes
pad n (d, i) = each (λ k old. 0) (n - i) i d

unfoldable pub strncpy : Bytes → Bytes → ℕ → Bytes
strncpy d s n = pad n (copy_text s n 0 d)
