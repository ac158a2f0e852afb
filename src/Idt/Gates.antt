-- ===== src/Idt/Gates.antt =====
-- What the processor reads from the interrupt table.
use mathlib.Core.Path.{subst}
use lunaria_os.Base.{
  ℕ, zero, suc, ◌+◌, ◌*◌, ◌/◌, ◌%◌, ◌^◌, ◌<◌, ◌≡◌, refl, sym, Bool, false, in_range, ◌==◌,
  if◌then◌else◌, arith,
}
use lunaria_os.Base.Bits.{and_ones}
use lunaria_os.Idt.{IdtEntry, Idt, Stubs, gate, set_gate, fill_gates, idt_init}

-- the address that a gate leads to, and the level that a program needs to trigger it
abbrev pub offset_of : IdtEntry → ℕ
offset_of e = e.offset_low + e.offset_high * 2 ^ 16

abbrev pub level_of : IdtEntry → ℕ
level_of e = e.type_attr / 32 % 4

-- the stub that belongs to a vector
abbrev pub stub_of : Stubs → ℕ → ℕ
stub_of s v =
    if v == 0x20
    then s.timer
    else if v == 0x21
    then s.keyboard
    else if v == 0x0d
    then s.protection_fault
    else if v == 0x0e
    then s.page_fault
    else if v == 0x80
    then s.system_call
    else s.dummy

fill_gates_lem :
    (addr n i : ℕ) (idt : Idt) (v : ℕ)
    → fill_gates addr n i idt v ≡ (if in_range i (i + n) v then gate addr 0 false else idt v)
unfolding fill_gates set_gate
fill_gates_lem addr zero i idt v = ground arith
fill_gates_lem addr (suc n) i idt v =
    ground (arith, fill_gates_lem addr n (i + 1) (set_gate idt i addr 0 false) v)

gate_offset : (addr dpl : ℕ) (trap : Bool) → addr < 2 ^ 32 → offset_of (gate addr dpl trap) ≡ addr
unfolding gate
gate_offset addr dpl trap h = ground (arith, and_ones 16 addr, and_ones 16 (addr / 2 ^ 16), h)

-- Every vector has a gate to its stub that is present (the highest bit) and of the kind of a 32-bit gate: a trap gate
-- for system calls, which leaves interrupts on, and an interrupt gate for all others. Only that of system calls has the
-- level of programs.
pub record IsGate (s : Stubs) (v : ℕ) (e : IdtEntry) : Type 0 where
  pub target : offset_of e ≡ stub_of s v
  pub level : level_of e ≡ (if v == 0x80 then 3 else 0)
  pub segment : e.selector ≡ 8
  pub present : e.type_attr / 128 ≡ 1
  pub kind : e.type_attr % 32 ≡ (if v == 0x80 then 15 else 14)
  pub unused : e.zero_byte ≡ 0

gate_of : Stubs → ℕ → IdtEntry
gate_of s v = gate (stub_of s v) (if v == 0x80 then 3 else 0) (v == 0x80)

idt_init_at : (s : Stubs) (idt : Idt) (v : ℕ) → v < 256 → idt_init s idt v ≡ gate_of s v
unfolding idt_init gate_of set_gate
idt_init_at s idt v h = ground (arith, fill_gates_lem s.dummy 256 0 idt v, h)

stub_of-IsGate : (s : Stubs) (v : ℕ) → stub_of s v < 2 ^ 32 → IsGate s v (gate_of s v)
unfolding gate_of gate
stub_of-IsGate s v h = record {
  target = gate_offset (stub_of s v) (if v == 0x80 then 3 else 0) (v == 0x80) h;
  level = ground arith;
  segment = refl;
  present = ground arith;
  kind = ground arith;
  unused = refl;
}

-- After `idt_init`, each of the 256 vectors has a gate that is present, in the kernel's code segment, to its own stub (at
-- any 32-bit address): a trap gate for system calls, which is the only one that a program may trigger, and an interrupt
-- gate for each other vector.
pub idt_init-IsGate :
    (s : Stubs) (idt : Idt) (v : ℕ) → v < 256 → stub_of s v < 2 ^ 32 → IsGate s v (idt_init s idt v)
idt_init-IsGate s idt v h small =
    subst (IsGate s v) (sym (idt_init_at s idt v h)) (stub_of-IsGate s v small)
