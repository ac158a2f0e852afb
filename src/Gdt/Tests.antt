-- ===== src/Gdt/Tests.antt =====
-- A table over zeroed memory.
use lunaria_os.Base.{arith}
use lunaria_os.Gdt.{Gdt, gdt_init}
use lunaria_os.Gdt.Fields.{IsTable, gdt_init-IsTable}

abbrev zeroed : Gdt
zeroed = record {
  gdt = λ k. record {
    limit_low = 0;
    base_low = 0;
    base_mid = 0;
    access = 0;
    flags_limit_high = 0;
    base_high = 0;
  };
  esp0 = 0;
  ss0 = 0;
  iomap = 0;
}

gdt_init-IsTable_example : IsTable 0x1_2345 (gdt_init 0x1_2345 zeroed)
gdt_init-IsTable_example = gdt_init-IsTable 0x1_2345 zeroed (omega arith)
