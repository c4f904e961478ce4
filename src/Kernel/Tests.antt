-- ===== src/Kernel/Tests.antt =====
-- A run of the theorem of the start, without a disk.
use osver.Prelude.{List, ◌≡◌, ◌+◌, refl, arith, [], ◌∷◌, none}
use osver.Pmm.{E820Entry}
use osver.Task.Tests.{alone}
use osver.Shell.Tests.{fat_volume, screen}
use osver.Serial.Tests.{console}
use osver.Cpu.Tests.{no_segment, no_gates, unmasked}
use osver.Kernel.{Layout, Boot, at_shell, kmain}
use osver.Kernel.Started.{IsLayout, IsStarted, kmain-IsStarted}

abbrev image : Layout
image = record {
  gdt = 0x18000;
  idt = 0x19000;
  kernel_tss = 0x1A000;
  first_page_table = 0x1C000;
  heap_storage = 0x20000;
  isr_stub_table = λ i. 0x11000 + i;
  isr128 = 0x12000;
}

abbrev memory_map : List E820Entry
memory_map =
    record { base = 0; length = 0x9F000; type = 1 }
    ∷ record { base = 0x100000; length = 0x1F00000; type = 1 }
    ∷ []

abbrev power_on : Boot
power_on = record {
  screen = screen;
  console = console;
  tss = no_segment;
  idt = no_gates;
  ports = unmasked;
  handlers = λ v. none;
  fs = fat_volume;
  sched = alone;
}

laid_out : IsLayout image
laid_out = record { aligned = refl; low = omega arith; not_first = omega arith; heap = omega arith }

kmain-IsStarted_example :
    (b : Boot) × (kmain image memory_map power_on ≡ at_shell b) × IsStarted image b
kmain-IsStarted_example = kmain-IsStarted image memory_map power_on laid_out
