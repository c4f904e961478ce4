-- ===== src/Syscall.antt =====
-- The system calls of src/proc/syscall.c on the registers of a task. A wait advances the ticks and the slice of
-- the current task; what other tasks do meanwhile is outside. A task that exits is left for another.
mod Answers
pub mod Tests
use osver.Prelude.{
  ℕ, zero, suc, ◌+◌, ◌%◌, ◌^◌, Bool, true, false, not, ◌&&◌, Option, some, none, List, [], ◌∷◌, ltb,
  ◌==◌, if◌then◌else◌,
}
use osver.Screen.{Screen, kputchar}
use osver.Task.{Sched, Task, Outcome, done, task_exit}
use osver.Task
use osver.Task.Create.{task_tick}
use osver.Timer.{timer_irq, timer_sleep_ms}

abbrev pub sys_exit : ℕ
sys_exit = 0

abbrev pub sys_write : ℕ
sys_write = 1

abbrev pub sys_getpid : ℕ
sys_getpid = 2

abbrev pub sys_sleep_ms : ℕ
sys_sleep_ms = 3

-- -1 in a register
abbrev pub minus_one : ℕ
minus_one = 0xFFFFFFFF

-- the registers of `registers_t` that a call uses
pub record Registers : Type 0 where
  pub eax : ℕ
  pub ebx : ℕ
  pub ecx : ℕ
  pub edx : ℕ

-- the scheduler, the screen, the ticks, and the memory that the task sees
pub record Kernel : Type 0 where
  pub sched : Sched
  pub screen : Screen
  pub ticks : ℕ
  pub memory : ℕ → ℕ

-- How a call ends: with a value, in another task, or not at all.
pub data Answer : Type 0 where
  back : ℕ → Kernel → Answer
  gone : ℕ → Kernel → Answer
  halted : Answer
  out_of_fuel : Answer

-- the bytes from an address on
unfoldable pub put_bytes : ℕ → ℕ → (ℕ → ℕ) → Screen → Screen
put_bytes zero buf memory s = s
put_bytes (suc n) buf memory s = put_bytes n ((buf + 1) % 2 ^ 32) memory (kputchar (memory buf) s)

unfoldable pub sys_write_impl : ℕ → ℕ → ℕ → Kernel → Answer
unfolding put_bytes
sys_write_impl fd buf n k =
    if not (fd == 1) && not (fd == 2)
    then back minus_one k
    else if buf == 0
    then back minus_one k
    else back n (record k { screen = put_bytes n buf k.memory k.screen })

unfoldable pub sys_getpid_impl : Kernel → Answer
sys_getpid_impl k =
    if k.sched.current == 0 then back minus_one k else back (k.sched.tasks k.sched.current).id k

-- the interrupts of the timer during a wait
unfoldable pub tick_times : ℕ → Kernel → Kernel
unfolding timer_irq task_tick
tick_times zero k = k
tick_times (suc n) k =
    tick_times n (record k { ticks = timer_irq k.ticks; sched = task_tick k.sched })

unfoldable pub sys_sleep_ms_impl : ℕ → Kernel → Answer
unfolding tick_times
sys_sleep_ms_impl ms k = elim (timer_sleep_ms (if ltb 60000 ms then 60000 else ms) k.ticks) [
  | none ↦ out_of_fuel
  | some n ↦ back 0 (tick_times n k)
]

unfoldable pub sys_exit_impl : Kernel → Answer
sys_exit_impl k = elim (task_exit k.sched) [
  | done (some t) s ↦ gone t (record k { sched = s })
  | done none s ↦ back 0 (record k { sched = s })
  | Task.halted ↦ halted
  | Task.out_of_fuel ↦ out_of_fuel
]

-- the value goes into eax
unfoldable pub syscall_dispatch : Registers → Kernel → Answer
unfolding sys_write_impl sys_getpid_impl sys_sleep_ms_impl sys_exit_impl
syscall_dispatch regs k =
    if regs.eax == sys_exit
    then sys_exit_impl k
    else if regs.eax == sys_write
    then sys_write_impl regs.ebx regs.ecx regs.edx k
    else if regs.eax == sys_getpid
    then sys_getpid_impl k
    else if regs.eax == sys_sleep_ms
    then sys_sleep_ms_impl regs.ebx k
    else back minus_one k
