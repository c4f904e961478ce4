-- ===== src/Syscall/Tests.antt =====
-- A run of the theorem of the system calls: five bytes are written to output 1.
use osver.Prelude.{◌+◌, ◌%◌, true, false, []}
use osver.Elf.Tests.{start}
use osver.Task.{Task, running}
use osver.Syscall.{Kernel, Registers}

abbrev task : Task
task = record {
  id = 3;
  name = [];
  state = running;
  esp = 0;
  stack_base = 0;
  stack_size = 0;
  kernel_stack_top = 0;
  is_user = true;
  user_stack_base = 0;
  image = 0;
  ticks_run = 0;
  slice_left = 5;
  next = 0x9000;
}

abbrev pub kernel : Kernel
kernel = record {
  sched = record {
    current = 0x9000;
    active = true;
    need_resched = false;
    next_id = 4;
    tasks = λ p. task;
    loader = start;
    words = λ a. 0;
    esp0 = 0;
  };
  screen = record { vga = λ i. 0; cur_col = 78; cur_row = 24; putc_calls = [] };
  ticks = 100;
  memory = λ a. b'A' + a % 26;
}

abbrev call : Registers
call = record { eax = 1; ebx = 1; ecx = 0x40000000; edx = 5 }
