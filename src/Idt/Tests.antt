-- ===== src/Idt/Tests.antt =====
-- A table over zeroed memory.
use lunaria_os.Base.{arith}
use lunaria_os.Idt.{Idt, Stubs, idt_init}
use lunaria_os.Idt.Gates.{IsGate, idt_init-IsGate}

abbrev zeroed : Idt
zeroed v = record { offset_low = 0; selector = 0; zero_byte = 0; type_attr = 0; offset_high = 0 }

abbrev stubs : Stubs
stubs = record {
  timer = 0x1_0000;
  keyboard = 0x1_0040;
  protection_fault = 0x1_0080;
  page_fault = 0x1_00c0;
  system_call = 0x1_0100;
  dummy = 0x1_0140;
}

idt_init-IsGate_example : IsGate stubs 0x80 (idt_init stubs zeroed 0x80)
idt_init-IsGate_example = idt_init-IsGate stubs zeroed 0x80 (omega arith) (omega arith)
