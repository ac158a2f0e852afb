-- ===== src/Calendar/Format.antt =====
-- `strftime` of src/home/lib/libc.c. The format is the list of its bytes before the zero; `none` is the run
-- that reads on behind that zero, or before a table of names.
use lunaria_os.Base.{
  ℕ, zero, suc, ◌+◌, ◌%◌, Option, none, some, ltb, leb, ◌==◌, if◌then◌else◌, List, [], ◌∷◌, get_or,
  Bytes, write,
}
use lunaria_os.Base.Int.{ℤ, pos, negsuc, ◌+ℤ◌}
use lunaria_os.Str.{itoa}
use lunaria_os.Calendar.{Tm}

abbrev pub months : List (List ℕ)
months =
    (b'J' ∷ b'a' ∷ b'n' ∷ [])
    ∷ (b'F' ∷ b'e' ∷ b'b' ∷ [])
    ∷ (b'M' ∷ b'a' ∷ b'r' ∷ [])
    ∷ (b'A' ∷ b'p' ∷ b'r' ∷ [])
    ∷ (b'M' ∷ b'a' ∷ b'y' ∷ [])
    ∷ (b'J' ∷ b'u' ∷ b'n' ∷ [])
    ∷ (b'J' ∷ b'u' ∷ b'l' ∷ [])
    ∷ (b'A' ∷ b'u' ∷ b'g' ∷ [])
    ∷ (b'S' ∷ b'e' ∷ b'p' ∷ [])
    ∷ (b'O' ∷ b'c' ∷ b't' ∷ [])
    ∷ (b'N' ∷ b'o' ∷ b'v' ∷ [])
    ∷ (b'D' ∷ b'e' ∷ b'c' ∷ [])
    ∷ []

abbrev pub weekdays : List (List ℕ)
weekdays =
    (b'S' ∷ b'u' ∷ b'n' ∷ [])
    ∷ (b'M' ∷ b'o' ∷ b'n' ∷ [])
    ∷ (b'T' ∷ b'u' ∷ b'e' ∷ [])
    ∷ (b'W' ∷ b'e' ∷ b'd' ∷ [])
    ∷ (b'T' ∷ b'h' ∷ b'u' ∷ [])
    ∷ (b'F' ∷ b'r' ∷ b'i' ∷ [])
    ∷ (b'S' ∷ b'a' ∷ b't' ∷ [])
    ∷ []

-- the bytes of a string in memory, for at most `f` bytes
unfoldable pub string_at : ℕ → Bytes → ℕ → List ℕ
string_at zero m i = []
string_at (suc f) m i = let rest = string_at f m (i + 1) in if m i == 0 then [] else m i ∷ rest

-- what `itoa` leaves in the 16 bytes of `tmp`
unfoldable pub number_text : ℤ → List ℕ
number_text v = string_at 16 (itoa v (λ i. 0)) 0

-- `table[v % n]` for the `n` texts of a table: C's remainder has the sign of `v`, and `none` is a place
-- before the table.
abbrev pub name_at : List (List ℕ) → ℕ → ℤ → Option (List ℕ)
name_at table n (pos v) = some (get_or table (v % n) [])
name_at table n (negsuc v) = if (v + 1) % n == 0 then some (get_or table 0 []) else none

-- `ins` for the byte `k` behind a percent sign
unfoldable pub inserted : Tm → ℕ → Option (List ℕ)
inserted tm k =
    if k == b'Y'
    then some (number_text (tm.year +ℤ pos 1900))
    else if k == b'm'
    then some (number_text (tm.mon +ℤ pos 1))
    else if k == b'd'
    then some (number_text tm.mday)
    else if k == b'H'
    then some (number_text tm.hour)
    else if k == b'M'
    then some (number_text tm.min)
    else if k == b'S'
    then some (number_text tm.sec)
    else if k == b'b'
    then name_at months 12 tm.mon
    else if k == b'a'
    then name_at weekdays 7 tm.wday
    else if k == b'%'
    then some (b'%' ∷ [])
    else some (b'%' ∷ k ∷ [])

-- the loop that copies `ins`
unfoldable pub insert_text : ℕ → List ℕ → Bytes × ℕ → Bytes × ℕ
insert_text max [] (s, n) = (s, n)
insert_text max (c ∷ cs) (s, n) =
    let rest = insert_text max cs (write s n c, n + 1) in if ltb (n + 1) max then rest else (s, n)

unfoldable pub format_loop : Tm → ℕ → List ℕ → Bytes × ℕ → Option (Bytes × ℕ)
format_loop tm max [] (s, n) = some (s, n)
format_loop tm max (c ∷ []) (s, n) =
    if ltb (n + 1) max then (if c == b'%' then none else some (write s n c, n + 1)) else some (s, n)
format_loop tm max (c ∷ k ∷ cs) (s, n) =
    let plain = format_loop tm max (k ∷ cs) (write s n c, n + 1) in
    let escaped : Option (Bytes × ℕ) = elim (inserted tm k) [
      | none ↦ none
      | some ins ↦ format_loop tm max cs (insert_text max ins (s, n))
    ] in
    if ltb (n + 1) max then (if c == b'%' then escaped else plain) else some (s, n)

abbrev pub terminated : ℕ → Bytes × ℕ → Bytes × ℕ
terminated max (s, n) = (if leb 1 max then write s n 0 else s, n)

unfoldable pub strftime : Bytes → ℕ → List ℕ → Tm → Option (Bytes × ℕ)
strftime s max fmt tm = elim (format_loop tm max fmt (s, 0)) [
  | none ↦ none
  | some r ↦ some (terminated max r)
]
