-- ===== src/Kernel.antt =====
-- The start of the system, `kmain` of src/kernel/kernel.c, up to the call of `shell_run`: the initialisations
-- in their order, over the state of every part. Addresses that the linker and the assembly give are a
-- parameter, and so is the table of the boot loader.
pub mod Started
mod Tests
use osver.Prelude.{ℕ, ◌*◌, ◌/◌, ◌%◌, ◌^◌, List, Bool, if◌then◌else◌, bit_and}
use osver.Bits.{shr}
use osver.Screen.{Screen, clear_screen, kprint, kprint_color, kprint_dec, vga_black}
use osver.Serial.{Serial, serial_init}
use osver.Cpu.Gdt.{gdt_init}
use osver.Cpu.Tss.{Tss, tss_init}
use osver.Cpu.Idt.{Idt, idt_init}
use osver.Cpu.Pic.{Ports, pic_init, outb}
use osver.Interrupt.{Table}
use osver.Interrupt.Handlers.{keyboard_init, register_fault, register_timer}
use osver.Pmm.{E820Entry, pmm_init, pmm_free_pages, pmm_total_pages}
use osver.Paging.{paging_init}
use osver.Kheap.{kheap_init}
use osver.Timer.{timer_divisor}
use osver.Fat32.State.{Fat32}
use osver.Fat32.Table.{fat32_mount}
use osver.Elf.{Loader}
use osver.Task.{Sched, done}
use osver.Task
use osver.Task.Create.{tasking_init}
use osver.Shell.Text.{codes}
use osver.Shell.State.{light_green, light_cyan, yellow}

-- the addresses of the static variables and of the assembly
pub record Layout : Type 0 where
  pub gdt : ℕ
  pub idt : ℕ
  pub kernel_tss : ℕ
  pub first_page_table : ℕ
  pub heap_storage : ℕ
  pub isr_stub_table : ℕ → ℕ
  pub isr128 : ℕ

-- the state of the parts that are set up
pub record Boot : Type 0 where
  pub screen : Screen
  pub console : Serial
  pub tss : Tss
  pub idt : Idt
  pub ports : Ports
  pub handlers : Table
  pub fs : Fat32
  pub sched : Sched

unfoldable pub print_banner : Screen → Screen
print_banner s =
    let s1 = kprint_color (codes "  __  __       ___  ____  \n") light_cyan vga_black s in
    let s2 = kprint_color (codes " |  \\/  |_   _/ _ \\/ ___| \n") light_cyan vga_black s1 in
    let s3 = kprint_color (codes " | |\\/| | | | | | | \\___ \\ \n") light_cyan vga_black s2 in
    let s4 = kprint_color (codes " | |  | | |_| | |_| |___) |\n") light_cyan vga_black s3 in
    let s5 = kprint_color (codes " |_|  |_|\\__, |\\___/|____/ \n") light_cyan vga_black s4 in
    let s6 = kprint_color (codes "          |___/       v2.2 \n") light_cyan vga_black s5 in
    kprint (codes "\n") s6

unfoldable pub ok : List ℕ → Screen → Screen
ok msg s = kprint (codes "\n") (kprint msg (kprint_color (codes "[ OK ] ") light_green vga_black s))

abbrev pub say : List ℕ → Boot → Boot
say msg b = record b { screen = ok msg b.screen }

abbrev pub on_loader : (Loader → Loader) → Boot → Boot
on_loader f b = record b { sched = record b.sched { loader = f b.sched.loader } }

unfoldable pub start_console : Boot → Boot
unfolding print_banner
start_console b =
    let screen = print_banner (clear_screen b.screen) in
    say (codes "Serial COM1 ready (115200 8N1)")
      (record b { screen = screen; console = serial_init b.console })

unfoldable pub start_tables : Layout → Boot → Boot
start_tables l b =
    let b1 =
      say (codes "GDT loaded (kernel + user segments + TSS slot)")
        (record b { tss = record b.tss { gdt = gdt_init l.gdt b.tss.gdt } }) in
    let b2 =
      say (codes "TSS loaded (LTR done)") (record b1 { tss = tss_init l.kernel_tss b1.tss }) in
    let b3 = say (codes "PIC remapped") (record b2 { ports = pic_init b2.ports }) in
    let b4 =
      say (codes "IDT loaded (incl. INT 0x80 syscall, DPL=3)")
        (record b3 { idt = idt_init l.isr_stub_table l.isr128 l.idt b3.idt }) in
    say (codes "Keyboard driver ready") (record b4 { handlers = keyboard_init b4.handlers })

-- how much memory there is, in 32-bit numbers of MiB
unfoldable pub tell_memory : Boot → Boot
tell_memory b =
    let pmm = b.sched.loader.paging.pmm in
    let s1 =
      kprint (codes "PMM ready - free: ")
        (kprint_color (codes "[ OK ] ") light_green vga_black b.screen) in
    let s2 = kprint_dec (pmm_free_pages pmm * 4 % 2 ^ 32 / 1024) s1 in
    let s3 =
      kprint_dec (pmm_total_pages pmm * 4 % 2 ^ 32 / 1024) (kprint (codes " MB / total: ") s2) in
    record b { screen = kprint (codes " MB\n") s3 }

unfoldable pub start_memory : Layout → List E820Entry → Boot → Boot
unfolding tell_memory
start_memory l table b =
    let b1 =
      tell_memory
        (on_loader (λ x. record x { paging = record x.paging { pmm = pmm_init table } }) b) in
    let b2 =
      on_loader (λ x. record x { paging = paging_init l.first_page_table x.paging })
        (record b1 { handlers = register_fault b1.handlers }) in
    let b3 = say (codes "Paging enabled - first 4 MB identity-mapped") b2 in
    say (codes "Kernel heap ready (256 KB freelist, 8B align)")
      (on_loader (λ x. record x { heap = kheap_init l.heap_storage x.heap }) b3)

-- the write of `ata_init`, and the volume on the second drive
unfoldable pub start_disk : Boot → Boot
start_disk b =
    let b1 =
      say (codes "ATA driver ready (primary bus, polling PIO)")
        (record b { ports = outb 0x3F6 0x02 b.ports }) in
    let (mounted, fs) = fat32_mount 1 b1.fs in
    let b2 = record b1 { fs = fs } in
    let warned = kprint_color (codes "[WARN] ") yellow vga_black b2.screen in
    if mounted then say (codes "FAT32 mounted on primary slave") b2 else record b2 {
      screen =
          kprint (codes "FAT32 mount failed (no data disk?) - 'ls/cat' will be unavailable\n")
            warned;
    }

-- the writes of `timer_init`
unfoldable pub program_timer : Ports → Ports
unfolding outb
program_timer p =
    outb 0x40 (bit_and (shr timer_divisor 8) 0xFF)
      (outb 0x40 (bit_and timer_divisor 0xFF) (outb 0x43 0x36 p))

unfoldable pub start_timer : Boot → Boot
unfolding program_timer
start_timer b =
    say (codes "PIT 100 Hz timer running (IRQ 0)")
      (record b { ports = program_timer b.ports; handlers = register_timer b.handlers })

-- How the start ends: at the shell, or in a panic.
pub data Start : Type 0 where
  at_shell : Boot → Start
  halted : Start
  out_of_fuel : Start

-- the last lines before the shell
unfoldable pub announce : Sched → Boot → Boot
announce s b =
    let b1 =
      say (codes "Interrupts enabled")
        (say (codes "Multitasking active (round-robin, 50ms slice)") (record b { sched = s })) in
    record b1 { screen = kprint (codes "\n") b1.screen }

unfoldable pub start_tasks : Boot → Start
unfolding announce
start_tasks b = elim (tasking_init b.sched) [
  | done u s ↦ at_shell (announce s b)
  | osver.Task.halted ↦ halted
  | osver.Task.out_of_fuel ↦ out_of_fuel
]

unfoldable pub kmain : Layout → List E820Entry → Boot → Start
unfolding start_console start_tables start_memory start_disk start_timer start_tasks
kmain l table b =
    start_tasks (start_timer (start_disk (start_memory l table (start_tables l (start_console b)))))
