-- ===== src/Cpu/Tests.antt =====
-- Runs of the theorems of the tables and of the interrupt masks.
use osver.Prelude.{ℕ, ◌+◌, ◌*◌, ◌≡◌, ◌<◌, [], arith, ◌==◌, if◌then◌else◌, ◌%◌}
use osver.Cpu.Gdt.{Gdt, gdt_init, gdt_kcode_sel, gdt_kdata_sel, gdt_ucode_sel, gdt_udata_sel}
use osver.Cpu.Gdt.Segments.{IsSegment, entry_of, tss_init-segments}
use osver.Cpu.Tss.{Tss, kernel_segment, tss_init}
use osver.Cpu.Idt.{Idt, idt_init}
use osver.Cpu.Idt.Gates.{IsGate, idt_init-IsGate}
use osver.Cpu.Pic.{Ports, pic_init, pic_mask_irq, pic_unmask_irq}
use osver.Cpu.Pic.Masks.{masked, pic_mask_irq-masked}

abbrev pub no_entries : Gdt
no_entries = record {
  gdt = λ i. record {
    limit_low = 7;
    base_low = 7;
    base_mid = 7;
    access = 7;
    granularity = 7;
    base_high = 7;
  };
  gdt_ptr = record { limit = 0; base = 0 };
}

abbrev pub no_segment : Tss
no_segment = record { kernel_tss = kernel_segment; gdt = no_entries; task_register = 0 }

abbrev loaded : Tss
loaded = tss_init 0x1A000 (record no_segment { gdt = gdt_init 0x19000 no_entries })

tss_init-segments_example :
    IsSegment 0 0 0 0 (entry_of 0 loaded.gdt)
    × IsSegment 0 0xFFFFF 0x9A 0xC (entry_of gdt_kcode_sel loaded.gdt)
    × IsSegment 0 0xFFFFF 0x92 0xC (entry_of gdt_kdata_sel loaded.gdt)
    × IsSegment 0 0xFFFFF (0x9A + gdt_ucode_sel % 4 * 0x20) 0xC (entry_of gdt_ucode_sel loaded.gdt)
    × IsSegment 0 0xFFFFF (0x92 + gdt_udata_sel % 4 * 0x20) 0xC (entry_of gdt_udata_sel loaded.gdt)
    × IsSegment 0x1A000 103 0x89 0 (entry_of loaded.task_register loaded.gdt)
    × (loaded.kernel_tss.ss0 ≡ gdt_kdata_sel)
    × (loaded.kernel_tss.esp0 ≡ 0)
tss_init-segments_example = tss_init-segments 0x19000 0x1A000 no_entries no_segment (omega arith)

abbrev pub no_gates : Idt
no_gates = record {
  idt = λ v. record { offset_low = 0; selector = 0; zero = 0; type_attr = 0; offset_high = 0 };
  idt_ptr = record { limit = 0; base = 0 };
}

abbrev stubs : ℕ → ℕ
stubs i = if i == 33 then 0x12345 else 0x12000

stubs_fit : (i : ℕ) → stubs i < 0x100000000
stubs_fit i = ground arith

idt_init-IsGate_example : IsGate (stubs 33) 0x8E ((idt_init stubs 0x13000 0x14000 no_gates).idt 33)
idt_init-IsGate_example = idt_init-IsGate stubs 0x13000 0x14000 no_gates 33 stubs_fit (omega arith)

abbrev pub unmasked : Ports
unmasked = pic_init (record { last = λ p. 0; writes = [] })

pic_mask_irq-masked_example :
    (masked 3 (pic_mask_irq 12 unmasked) ≡ (if 3 == 12 then 1 else masked 3 unmasked))
    × (masked 3 (pic_unmask_irq 12 unmasked) ≡ (if 3 == 12 then 0 else masked 3 unmasked))
pic_mask_irq-masked_example = pic_mask_irq-masked 12 3 unmasked (omega arith) (omega arith)
