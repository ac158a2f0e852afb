-- ===== src/Idt.antt =====
-- The interrupt table of src/kernel/idt.c. The addresses of the assembly stubs are arguments; the
-- interrupt controller's set-up and the load of the table have no model.
pub mod Gates
mod Tests
use lunaria_os.Base.{
  ℕ, zero, suc, ◌+◌, ◌-◌, ◌*◌, ◌/◌, ◌%◌, ◌^◌, Bool, true, false, bit_and, bit_or, ◌==◌,
  if◌then◌else◌,
}
use lunaria_os.Pit.{Pit, pit_handler}
use lunaria_os.Keyboard.{Kbd, keyboard_handler}

pub record IdtEntry : Type 0 where
  pub offset_low : ℕ
  pub selector : ℕ
  pub zero_byte : ℕ
  pub type_attr : ℕ
  pub offset_high : ℕ

-- the static `idt`
abbrev pub Idt : Type 0
Idt = ℕ → IdtEntry

-- the addresses of the stubs in isr.asm
pub record Stubs : Type 0 where
  pub timer : ℕ
  pub keyboard : ℕ
  pub protection_fault : ℕ
  pub page_fault : ℕ
  pub system_call : ℕ
  pub dummy : ℕ

unfoldable pub gate : ℕ → ℕ → Bool → IdtEntry
gate addr dpl trap = record {
  offset_low = bit_and addr 0xffff;
  selector = 8;
  zero_byte = 0;
  type_attr = bit_or (if trap then 0x8f else 0x8e) (dpl * 2 ^ 5) % 256;
  offset_high = bit_and (addr / 2 ^ 16) 0xffff;
}

unfoldable pub set_gate : Idt → ℕ → ℕ → ℕ → Bool → Idt
set_gate idt vector addr dpl trap = λ v. if v == vector then gate addr dpl trap else idt v

-- The loop of `idt_init` over the vectors, `n` of them from `i` on.
unfoldable pub fill_gates : ℕ → ℕ → ℕ → Idt → Idt
fill_gates addr zero i idt = idt
fill_gates addr (suc n) i idt = fill_gates addr n (i + 1) (set_gate idt i addr 0 false)

unfoldable pub idt_init : Stubs → Idt → Idt
idt_init stubs idt =
    let all = fill_gates stubs.dummy 256 0 idt in
    let t1 = set_gate all 0x20 stubs.timer 0 false in
    let t2 = set_gate t1 0x21 stubs.keyboard 0 false in
    let t3 = set_gate t2 0x0d stubs.protection_fault 0 false in
    let t4 = set_gate t3 0x0e stubs.page_fault 0 false in set_gate t4 0x80 stubs.system_call 3 true

-- `scancode` is what the keyboard's port has; the end of interrupt is a port write.
unfoldable pub isr_common_handler : ℕ → ℕ → Pit × Kbd → Pit × Kbd
isr_common_handler vector scancode (pit, kbd) = (
  if vector == 0x20 then pit_handler pit else pit,
  if vector == 0x21 then keyboard_handler kbd scancode else kbd,
)
