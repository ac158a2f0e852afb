-- ===== src/Gdt/Fields.antt =====
-- What the processor reads from the descriptors.
use lunaria_os.Base.{
  true, ℕ, ◌+◌, ◌*◌, ◌/◌, ◌%◌, ◌^◌, ◌<◌, ◌≡◌, bit_and, bit_or, arith, ==_iff, ◌==◌, refl,
}
use lunaria_os.Base.Bits.{and_ones}
use lunaria_os.Base.Table.{holds_under, holds_under_lem}
use lunaria_os.Gdt.{GdtEntry, Gdt, descriptor, set_gdt_entry, gdt_init}

-- the base and the limit of a descriptor, and its privilege level, by the layout of the processor
abbrev pub base_of : GdtEntry → ℕ
base_of e = e.base_low + e.base_mid * 2 ^ 16 + e.base_high * 2 ^ 24

abbrev pub limit_of : GdtEntry → ℕ
limit_of e = e.limit_low + e.flags_limit_high % 16 * 2 ^ 16

abbrev pub level_of : GdtEntry → ℕ
level_of e = e.access / 32 % 4

-- 8: the limit counts pages of 4 KiB, 4: a segment of 32 bits
abbrev pub flags_of : GdtEntry → ℕ
flags_of e = e.flags_limit_high / 16

-- the low half of a byte with the high half of another
halves_table :
    holds_under 16 (λ l. holds_under 256 (λ f. bit_or l (bit_and f 0xf0) % 16 == l)) ≡ true
unfolding holds_under
halves_table = refl

flags_table :
    holds_under 16 (λ l. holds_under 256 (λ f. bit_or l (bit_and f 0xf0) / 16 == f / 16)) ≡ true
unfolding holds_under
flags_table = refl

pub record Describes (e : GdtEntry) (base limit access flags : ℕ) : Type 0 where
  pub base_ok : base_of e ≡ base
  pub limit_ok : limit_of e ≡ limit
  pub access_ok : e.access ≡ access
  pub flags_ok : flags_of e ≡ flags

descriptor-Describes :
    (base limit access flags : ℕ)
    → base < 2 ^ 32
    → limit < 2 ^ 20
    → flags < 256
    → Describes (descriptor base limit access flags) base limit access (flags / 16)
unfolding descriptor
descriptor-Describes base limit access flags hb hl hf = record {
  base_ok =
      ground (arith, and_ones 16 base, and_ones 8 (base / 2 ^ 16), and_ones 8 (base / 2 ^ 24), hb);
  limit_ok = ground (arith, and_ones 16 limit, and_ones 4 (limit / 2 ^ 16), hl, low);
  access_ok = refl;
  flags_ok = ground (arith, and_ones 4 (limit / 2 ^ 16), hl, high);
}
  where
    high : bit_or (limit / 2 ^ 16 % 16) (bit_and flags 0xf0) / 16 ≡ flags / 16
    high = (==_iff _ (flags / 16)).0 (
        holds_under_lem 256 (λ f. bit_or (limit / 2 ^ 16 % 16) (bit_and f 0xf0) / 16 == f / 16)
          flags
          (holds_under_lem 16 (λ l. holds_under 256 (λ f. bit_or l (bit_and f 0xf0) / 16 == f / 16))
            (limit / 2 ^ 16 % 16) flags_table (omega arith))
          hf)

    low : bit_or (limit / 2 ^ 16 % 16) (bit_and flags 0xf0) % 16 ≡ limit / 2 ^ 16 % 16
    low = (==_iff _ (limit / 2 ^ 16 % 16)).0 (
        holds_under_lem 256
          (λ f. bit_or (limit / 2 ^ 16 % 16) (bit_and f 0xf0) % 16 == limit / 2 ^ 16 % 16) flags
          (holds_under_lem 16 (λ l. holds_under 256 (λ f. bit_or l (bit_and f 0xf0) % 16 == l))
            (limit / 2 ^ 16 % 16) halves_table (omega arith))
          hf)

-- The table that the kernel loads: the segments of the kernel have level 0 and those of programs level
-- 3, all of them cover 4 GiB from 0 on (a limit of 2^20 - 1 in pages of 4 KiB, with 32-bit operands), and the last describes the task state segment.
pub record IsTable (tss_base : ℕ) (g : Gdt) : Type 0 where
  pub kernel_code : Describes (g.gdt 1) 0 0xf_ffff 0x9a 12
  pub kernel_data : Describes (g.gdt 2) 0 0xf_ffff 0x92 12
  pub user_code : Describes (g.gdt 3) 0 0xf_ffff 0xfa 12
  pub user_data : Describes (g.gdt 4) 0 0xf_ffff 0xf2 12
  pub task : Describes (g.gdt 5) tss_base 103 0x89 0
  pub levels :
      (level_of (g.gdt 1) + level_of (g.gdt 2) ≡ 0)
      × (level_of (g.gdt 3) ≡ 3)
      × (level_of (g.gdt 4) ≡ 3)
  pub stack : (g.ss0 ≡ 16) × (g.esp0 ≡ 0x9_0000)

-- For a task state segment at any 32-bit address, the descriptors that `gdt_init` stores read back as
-- the base, the limit, the access byte and the flags of each segment: kernel code and data at level 0, user code
-- and data at level 3, each 4 GiB from 0 on in pages of 4 KiB, and the task state segment, which the limit counts in
-- bytes, with the kernel's stack in it.
pub gdt_init-IsTable :
    (tss_base : ℕ) (g : Gdt) → tss_base < 2 ^ 32 → IsTable tss_base (gdt_init tss_base g)
unfolding gdt_init set_gdt_entry descriptor
gdt_init-IsTable tss_base g h = record {
  kernel_code = descriptor-Describes 0 0xf_ffff 0x9a 0xc0 (omega arith) (omega arith) (omega arith);
  kernel_data = descriptor-Describes 0 0xf_ffff 0x92 0xc0 (omega arith) (omega arith) (omega arith);
  user_code = descriptor-Describes 0 0xf_ffff 0xfa 0xc0 (omega arith) (omega arith) (omega arith);
  user_data = descriptor-Describes 0 0xf_ffff 0xf2 0xc0 (omega arith) (omega arith) (omega arith);
  task = descriptor-Describes tss_base 103 0x89 0 h (omega arith) (omega arith);
  levels = level_table;
  stack = (refl, refl);
}
  where
    level_table :
        (level_of (descriptor 0 0xf_ffff 0x9a 0xc0) + level_of (descriptor 0 0xf_ffff 0x92 0xc0)
          ≡ 0)
        × (level_of (descriptor 0 0xf_ffff 0xfa 0xc0) ≡ 3)
        × (level_of (descriptor 0 0xf_ffff 0xf2 0xc0) ≡ 3)
    level_table = (refl, refl, refl)
