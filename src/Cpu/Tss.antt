-- ===== src/Cpu/Tss.antt =====
-- The task state segment of src/cpu/tss.c and src/cpu/tss.h.
use osver.Prelude.{ℕ, ◌-◌}
use osver.Cpu.Gdt.{Gdt, gdt_set_tss, gdt_kcode_sel, gdt_kdata_sel, gdt_tss_sel}

-- `tss_t`
pub record TaskSegment : Type 0 where
  pub prev_tss : ℕ
  pub esp0 : ℕ
  pub ss0 : ℕ
  pub esp1 : ℕ
  pub ss1 : ℕ
  pub esp2 : ℕ
  pub ss2 : ℕ
  pub cr3 : ℕ
  pub eip : ℕ
  pub eflags : ℕ
  pub eax : ℕ
  pub ecx : ℕ
  pub edx : ℕ
  pub ebx : ℕ
  pub esp : ℕ
  pub ebp : ℕ
  pub esi : ℕ
  pub edi : ℕ
  pub es : ℕ
  pub cs : ℕ
  pub ss : ℕ
  pub ds : ℕ
  pub fs : ℕ
  pub gs : ℕ
  pub ldt : ℕ
  pub trap : ℕ
  pub iomap_base : ℕ

abbrev pub sizeof_tss : ℕ
sizeof_tss = 104

-- `kernel_tss`, the GDT, and the selector that `ltr` has loaded
pub record Tss : Type 0 where
  pub kernel_tss : TaskSegment
  pub gdt : Gdt
  pub task_register : ℕ

-- the fields that are set, after all are 0
unfoldable pub kernel_segment : TaskSegment
kernel_segment = record {
  prev_tss = 0;
  esp0 = 0;
  ss0 = gdt_kdata_sel;
  esp1 = 0;
  ss1 = 0;
  esp2 = 0;
  ss2 = 0;
  cr3 = 0;
  eip = 0;
  eflags = 0;
  eax = 0;
  ecx = 0;
  edx = 0;
  ebx = 0;
  esp = 0;
  ebp = 0;
  esi = 0;
  edi = 0;
  es = gdt_kdata_sel;
  cs = gdt_kcode_sel;
  ss = gdt_kdata_sel;
  ds = gdt_kdata_sel;
  fs = gdt_kdata_sel;
  gs = gdt_kdata_sel;
  ldt = 0;
  trap = 0;
  iomap_base = sizeof_tss;
}

-- `address` is the one of `kernel_tss`.
unfoldable pub tss_init : ℕ → Tss → Tss
unfolding kernel_segment
tss_init address s = record {
  kernel_tss = kernel_segment;
  gdt = gdt_set_tss address (sizeof_tss - 1) s.gdt;
  task_register = gdt_tss_sel;
}

unfoldable pub tss_set_esp0 : ℕ → Tss → Tss
tss_set_esp0 esp0 s = record s { kernel_tss = record s.kernel_tss { esp0 = esp0 } }
