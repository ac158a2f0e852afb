-- ===== src/Gdt.antt =====
-- The segment descriptors of src/kernel/gdt.c. `tss_base` is the address of the task state segment; the
-- loads of the table and of the segment registers have no model.
pub mod Fields
mod Tests
use lunaria_os.Base.{
  ℕ, zero, suc, ◌+◌, ◌-◌, ◌*◌, ◌/◌, ◌%◌, ◌^◌, ◌<◌, ◌≡◌, ◌∙◌, ap, Bool, bit_and, bit_or, arith, ltb,
  ◌==◌, if◌then◌else◌,
}
use lunaria_os.Base.Bits.{and_ones, and_high, or_fields}

pub record GdtEntry : Type 0 where
  pub limit_low : ℕ
  pub base_low : ℕ
  pub base_mid : ℕ
  pub access : ℕ
  pub flags_limit_high : ℕ
  pub base_high : ℕ

-- the static `gdt` by index, and what `gdt_init` sets in the task state segment
pub record Gdt : Type 0 where
  pub gdt : ℕ → GdtEntry
  pub esp0 : ℕ
  pub ss0 : ℕ
  pub iomap : ℕ

-- the entry that `set_gdt_entry` stores
unfoldable pub descriptor : ℕ → ℕ → ℕ → ℕ → GdtEntry
descriptor base limit access flags = record {
  limit_low = bit_and limit 0xffff;
  base_low = bit_and base 0xffff;
  base_mid = bit_and (base / 2 ^ 16) 0xff;
  access = access;
  flags_limit_high = bit_or (bit_and (limit / 2 ^ 16) 0x0f) (bit_and flags 0xf0);
  base_high = bit_and (base / 2 ^ 24) 0xff;
}

unfoldable pub set_gdt_entry : Gdt → ℕ → ℕ → ℕ → ℕ → ℕ → Gdt
set_gdt_entry g index base limit access flags = record g {
  gdt = λ k. if k == index then descriptor base limit access flags else g.gdt k;
}

abbrev pub tss_size : ℕ
tss_size = 104

unfoldable pub gdt_init : ℕ → Gdt → Gdt
gdt_init tss_base g =
    let g1 = set_gdt_entry g 0 0 0 0 0 in
    let g2 = set_gdt_entry g1 1 0 0xf_ffff 0x9a 0xc0 in
    let g3 = set_gdt_entry g2 2 0 0xf_ffff 0x92 0xc0 in
    let g4 = set_gdt_entry g3 3 0 0xf_ffff 0xfa 0xc0 in
    let g5 = set_gdt_entry g4 4 0 0xf_ffff 0xf2 0xc0 in
    let g6 : Gdt = record g5 { esp0 = 0x9_0000; ss0 = 0x10; iomap = tss_size } in
    set_gdt_entry g6 5 tss_base (tss_size - 1) 0x89 0
