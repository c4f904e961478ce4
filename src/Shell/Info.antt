-- ===== src/Shell/Info.antt =====
-- The commands of src/shell/shell.c that only tell something.
use osver.Prelude.{ℕ, ◌-◌, ◌/◌, ◌%◌, List, [], ◌∷◌, length, ltb, if◌then◌else◌}
use osver.Screen.{Screen, kputchar, kprint, kprint_color, vga_black}
use osver.Timer.{timer_uptime_seconds, timer_hz}
use osver.Shell.Text.{codes}
use osver.Shell.Files.{put_blanks, complain}
use osver.Shell.State.{
  halted, M, ◌>>◌, on_screen, print, print_in, print_dec, print_char, light_cyan, yellow,
}

-- the names and descriptions in the table `cmds`
abbrev pub descriptions : List (List ℕ × List ℕ)
descriptions =
    (codes "help", codes "show this command list")
    ∷ (codes "clear", codes "clear the screen")
    ∷ (codes "echo", codes "print text                echo <text>")
    ∷ (codes "meminfo", codes "show memory usage")
    ∷ (codes "page", codes "alloc / free a page      page alloc|free <addr>")
    ∷ (codes "vmap", codes "show v->p mapping        vmap <virt>")
    ∷ (codes "pf-test", codes "trigger a page fault")
    ∷ (codes "ls", codes "list files               ls [path]")
    ∷ (codes "cat", codes "print a file             cat <path>")
    ∷ (codes "touch", codes "create empty file        touch <path>")
    ∷ (codes "write", codes "overwrite file content   write <path> <text>")
    ∷ (codes "rm", codes "delete a file            rm <path>")
    ∷ (codes "mkdir", codes "create a directory       mkdir <path>")
    ∷ (codes "rmdir", codes "remove an empty dir      rmdir <path>")
    ∷ (codes "cd", codes "change directory         cd <path> | .. | /")
    ∷ (codes "pwd", codes "print current path")
    ∷ (codes "uptime", codes "show how long the system has been up")
    ∷ (codes "sleep", codes "wait N seconds            sleep <seconds>")
    ∷ (codes "heap", codes "show kernel heap stats")
    ∷ (codes "kalloc", codes "kmalloc/kfree test        kalloc alloc <n> | kalloc free <addr>")
    ∷ (codes "tasks", codes "list scheduled tasks")
    ∷ (codes "spawn", codes "spawn N counter tasks     spawn <count>")
    ∷ (codes "yield", codes "voluntarily give up CPU")
    ∷ (codes "user", codes "run a ring-3 demo task")
    ∷ (codes "exec", codes "load an ELF and run it      exec <path>")
    ∷ (codes "version", codes "show OS version info")
    ∷ (codes "halt", codes "halt the system")
    ∷ []

unfoldable pub help_lines : List (List ℕ × List ℕ) → Screen → Screen
unfolding put_blanks
help_lines [] s = s
help_lines ((name, desc) ∷ rest) s =
    let start = kprint_color name yellow vga_black (kprint (codes "  ") s) in
    help_lines rest (kputchar 10 (kprint desc (put_blanks (10 - length name) start)))

unfoldable pub cmd_help : List (List ℕ) → M (Unit {0})
unfolding help_lines
cmd_help argv = do print_in light_cyan (codes "Commands:\n"); on_screen (help_lines descriptions)

-- a number of minutes or seconds, with two digits
abbrev pub print_two : ℕ → M (Unit {0})
print_two n = if ltb n 10 then (do print_char b'0'; print_dec n) else print_dec n

unfoldable pub cmd_uptime : List (List ℕ) → M (Unit {0})
cmd_uptime argv s =
    let total = timer_uptime_seconds s.ticks in
    (do
      print (codes "up ")
      print_dec (total / 3600)
      print (codes "h ")
      print_two (total / 60 % 60)
      print (codes "m ")
      print_two (total % 60)
      print (codes "s   (")
      print_dec s.ticks
      print (codes " ticks @ ")
      print_dec timer_hz
      print (codes " Hz)\n"))
      s

unfoldable pub cmd_version : List (List ℕ) → M (Unit {0})
cmd_version argv = do
  print_in light_cyan (codes "MyOS v1.0  (mini-Unix milestone)\n")
  print (codes "  Arch  : x86 (i686), 32-bit protected mode + paging\n")
  print (codes "  Kernel: custom bootloader + C kernel\n")
  print (codes "  Phases: boot / GDT+IDT / keyboard / PMM / shell / paging\n")
  print (codes "        / FAT32 / serial+PIT / kheap / multitasking\n")
  print (codes "        / user mode + syscalls / ELF loader\n")
  print (codes "  FS    : ls cat touch write rm mkdir rmdir cd pwd\n")
  print (codes "  Time  : uptime sleep   (PIT 100 Hz, COM1 115200 8N1)\n")
  print (codes "  Heap  : heap kalloc    (256 KB freelist, 8B align, coalesce)\n")
  print (codes "  Tasks : tasks spawn yield user exec  (ring 0 + ring 3)\n")
  print (codes "  Sys   : exit write getpid sleep_ms (4 syscalls)\n")
  print (codes "  Exec  : ELF32 PT_LOAD -> 0x40000000 (vmm_map + USER pages)\n")

unfoldable pub cmd_halt : List (List ℕ) → M (Unit {0})
cmd_halt argv = do complain (codes "System halted.\n"); λ s. halted
