-- ===== src/Cpu/Idt.antt =====
-- The interrupt gates of src/cpu/idt.c and src/cpu/idt.h. The addresses of the assembly stubs are
-- parameters; the pointer is what `idt_flush` loads.
pub mod Gates
use osver.Prelude.{ℕ, zero, suc, ◌+◌, ◌-◌, ◌*◌, ◌%◌, ◌^◌, ◌==◌, if◌then◌else◌, bit_and}
use osver.Bits.{shr}

-- `idt_entry_t`
pub record IdtEntry : Type 0 where
  pub offset_low : ℕ
  pub selector : ℕ
  pub zero : ℕ
  pub type_attr : ℕ
  pub offset_high : ℕ

abbrev pub sizeof_idt_entry : ℕ
sizeof_idt_entry = 8

-- `idt_ptr_t`
pub record IdtPtr : Type 0 where
  pub limit : ℕ
  pub base : ℕ

abbrev pub idt_entries : ℕ
idt_entries = 256

-- `idt` and `idt_ptr`
pub record Idt : Type 0 where
  pub idt : ℕ → IdtEntry
  pub idt_ptr : IdtPtr

unfoldable pub gate : ℕ → ℕ → ℕ → IdtEntry
gate handler selector flags = record {
  offset_low = bit_and handler 0xFFFF;
  selector = selector;
  zero = 0;
  type_attr = flags;
  offset_high = bit_and (shr handler 16) 0xFFFF;
}

unfoldable pub idt_set_gate : ℕ → ℕ → ℕ → ℕ → Idt → Idt
idt_set_gate num handler selector flags s = record s {
  idt = λ j. if j == num then gate handler selector flags else s.idt j;
}

-- the stubs from `i` on, at the vectors `base + i`
unfoldable pub set_gates : ℕ → ℕ → ℕ → (ℕ → ℕ) → Idt → Idt
set_gates zero i base stubs s = s
set_gates (suc left) i base stubs s =
    set_gates left (i + 1) base stubs
      (idt_set_gate ((base + i) % 2 ^ 8) (stubs (base + i)) 0x08 0x8E s)

-- `isr_stub_table`, and the addresses of `isr128` and of `idt`
unfoldable pub idt_init : (ℕ → ℕ) → ℕ → ℕ → Idt → Idt
unfolding set_gates
idt_init isr_stub_table isr128 address s =
    let s0 = record s {
      idt_ptr = record { limit = idt_entries * sizeof_idt_entry - 1; base = address };
    } in
    let s1 = set_gates 32 0 0 isr_stub_table s0 in
    let s2 = set_gates 16 0 32 isr_stub_table s1 in idt_set_gate 128 isr128 0x08 0xEF s2
