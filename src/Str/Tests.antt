-- ===== src/Str/Tests.antt =====
-- The string library on small buffers.
use lunaria_os.Base.{◌+◌, ◌-◌, ◌≡◌, refl, some, Bytes, in_range, if◌then◌else◌, arith}
use lunaria_os.Base.Int.{pos, negsuc}
use lunaria_os.Str.{itoa, atoi, memmove, put_digits, swap_loop, finish, signed}
use lunaria_os.Str.Move.{memmove_lem}
use lunaria_os.Str.Decimal.{atoi-itoa}

abbrev zeros : Bytes
zeros j = 0

-- "-45" in the buffer
negative_text : itoa (negsuc 44) zeros 1 ≡ b'4'
unfolding itoa put_digits finish swap_loop signed
negative_text = refl

atoi-itoa_example : atoi 11 (itoa (pos 2026) zeros) ≡ some 2026
atoi-itoa_example = atoi-itoa 2026 zeros (omega arith)

memmove_lem_example : memmove (λ j. j) 2 0 5 4 ≡ (if in_range 2 7 4 then 0 + (4 - 2) else 4)
memmove_lem_example = memmove_lem (λ j. j) 2 0 5 4
