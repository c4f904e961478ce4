-- ===== src/Interrupt/Tests.antt =====
-- A run of the theorem of preemption: a slice of five ticks in a ring of three tasks.
use osver.Prelude.{refl, arith, [], ◌∷◌, ◌++◌, none, false}
use osver.Task.{ready}
use osver.Task.Tests.{ring_of, three}
use osver.Syscall.Tests.{kernel}
use osver.Interrupt.{Frame, Machine, Table, isr_register}
use osver.Interrupt.Handlers.{keyboard_init, register_fault, register_timer}
use osver.Interrupt.Preempt.{Preempted, interrupts, isr_handler-Preempted}

abbrev handlers : Table
handlers = register_timer (register_fault (keyboard_init (λ v. none)))

abbrev frame : Frame
frame = record {
  int_no = 32;
  err_code = 0;
  eip = 0;
  regs = record { eax = 0; ebx = 0; ecx = 0; edx = 0 };
}

abbrev machine : Machine
machine = record {
  kernel = record kernel { sched = ring_of ready };
  keyboard = record { buf = λ i. 0; head = 0; tail = 0; shift = false; caps = false };
  pic = record { last = λ p. 0; writes = [] };
  scancode = 0;
  cr2 = 0;
}

isr_handler-Preempted_example :
    Preempted 5 2000 ((3000 ∷ []) ++ (1000 ∷ [])) machine (interrupts 5 handlers frame machine)
unfolding register_timer isr_register
isr_handler-Preempted_example =
    isr_handler-Preempted 4 handlers frame machine 1000 2000 (3000 ∷ []) refl three (omega arith)
      refl refl
