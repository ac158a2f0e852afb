-- ===== src/Frames/Areas.antt =====
-- Which bytes the BIOS map and the fixed areas leave to `memory_init`.
use lunaria_os.Base.{
  leb, ℕ, ◌+◌, ◌-◌, ◌*◌, ◌^◌, ◌<◌, ◌≤◌, ◌≡◌, refl, List, [], ◌∷◌, Bool, false, not, ◌&&◌, ◌||◌,
  arith, ltb, ◌==◌, if◌then◌else◌, Bool-cases, inl, inr,
}
use lunaria_os.Frames.{in_usable, E820Entry, page_size, is_reserved}

-- whether an area of the BIOS map has the byte `addr`: the areas of usable memory that begin below 4 GiB count,
-- and of each the first 2 GiB at most, up to its length (behind 4 GiB an area goes on at 0)
abbrev pub covers : E820Entry → ℕ → Bool
covers e addr =
    let away = if leb e.base_lo addr then addr - e.base_lo else addr + 2 ^ 32 - e.base_lo in
    ((e.type == 1) && (e.base_hi == 0)) && (ltb away e.len_lo && ltb away 0x8000_0000)

abbrev pub is_covered : List E820Entry → ℕ → Bool
is_covered [] addr = false
is_covered (e ∷ es) addr = covers e addr || is_covered es addr

-- covered, and neither in the first MiB nor in the window from 4 to 8 MiB
abbrev pub is_available : List E820Entry → ℕ → Bool
is_available es addr =
    (not (ltb addr 0x10_0000) && not (not (ltb addr 0x40_0000) && ltb addr 0x80_0000))
    && is_covered es addr

in_usable_lem :
    (es : List E820Entry) (addr : ℕ) → addr < 2 ^ 32 → in_usable es addr ≡ is_covered es addr
unfolding in_usable
in_usable_lem [] addr lt = refl
in_usable_lem (e ∷ es) addr lt = ground (arith, lt, in_usable_lem es addr lt)

is_reserved_lem :
    (es : List E820Entry) (addr : ℕ)
    → addr < 2 ^ 32
    → not (is_reserved es addr) ≡ is_available es addr
unfolding is_reserved
is_reserved_lem es addr lt = ground (arith, in_usable_lem es addr lt)

pub available_lem :
    (es : List E820Entry) (n j : ℕ)
    → n ≤ 2 ^ 20
    → (ltb j n && not (is_reserved es (j * page_size)))
      ≡ (ltb j n && is_available es (j * page_size))
available_lem es n j small = elim (Bool-cases (ltb j n)) [
  | inl e ↦ rw e (is_reserved_lem es (j * page_size) (ground (arith, e, small)))
  | inr e ↦ rw e refl
]
