-- ===== src/Interrupt.antt =====
-- The interrupts of src/cpu/isr.c and src/cpu/isr.h: the table of handlers and the dispatch to exceptions,
-- devices and system calls, over the scheduler, the screen and the interrupt controllers. The stubs that save
-- and restore the registers are assembly.
pub mod Handlers
pub mod Preempt
mod Tests
use osver.Prelude.{
  ℕ, ◌-◌, ◌%◌, ◌^◌, Bool, true, false, Option, some, none, List, [], ◌∷◌, get_or, ltb, leb, ◌==◌,
  if◌then◌else◌,
}
use osver.Screen.{Screen, kprint, kprint_color, kprint_dec, kprint_hex, vga_black, vga_light_grey}
use osver.Keyboard.{Keyboard}
use osver.Task.{Sched, done, task_yield}
use osver.Task
use osver.Task.Create.{task_should_resched}
use osver.Syscall.{Kernel, Registers, syscall_dispatch}
use osver.Syscall
use osver.Cpu.Pic.{Ports, pic_send_eoi}
use osver.Shell.Text.{codes}

abbrev pub vga_red : ℕ
vga_red = 4

abbrev pub vga_white : ℕ
vga_white = 15

-- the fields of `registers_t` that are read; the general registers are those of a system call
pub record Frame : Type 0 where
  pub int_no : ℕ
  pub err_code : ℕ
  pub eip : ℕ
  pub regs : Registers

-- What the handlers work on. `scancode` is what the keyboard's port answers and `cr2` the address of the
-- last page fault.
pub record Machine : Type 0 where
  pub kernel : Kernel
  pub keyboard : Keyboard
  pub pic : Ports
  pub scancode : ℕ
  pub cr2 : ℕ

-- How a handler ends: it goes back to the code below, another task runs, or the system stands still, there
-- on purpose or by a panic.
pub data Ended : Type 0 where
  back : Frame → Machine → Ended
  gone : ℕ → Machine → Ended
  stopped : Machine → Ended
  halted : Ended
  out_of_fuel : Ended

-- `isr_handler_t`
abbrev pub Handler : Type 0
Handler = Frame → Machine → Ended

-- `handlers`, where `none` is NULL
abbrev pub Table : Type 0
Table = ℕ → Option Handler

unfoldable pub isr_register : ℕ → Handler → Table → Table
isr_register num handler t = λ v. if v == num then some handler else t v

abbrev pub exception_names : List (List ℕ)
exception_names =
    codes "Division Error"
    ∷ codes "Debug"
    ∷ codes "Non-Maskable Interrupt"
    ∷ codes "Breakpoint"
    ∷ codes "Overflow"
    ∷ codes "Bound Range Exceeded"
    ∷ codes "Invalid Opcode"
    ∷ codes "Device Not Available"
    ∷ codes "Double Fault"
    ∷ codes "Coprocessor Segment Overrun"
    ∷ codes "Invalid TSS"
    ∷ codes "Segment Not Present"
    ∷ codes "Stack-Segment Fault"
    ∷ codes "General Protection Fault"
    ∷ codes "Page Fault"
    ∷ codes "Reserved"
    ∷ codes "x87 FPU Error"
    ∷ codes "Alignment Check"
    ∷ codes "Machine Check"
    ∷ codes "SIMD FP Exception"
    ∷ codes "Virtualization Exception"
    ∷ []

-- what is printed of an exception without a handler
unfoldable pub report_exception : Frame → Screen → Screen
report_exception f s =
    let s1 = kprint_color (codes "\n*** EXCEPTION ***  ") vga_white vga_red s in
    let s2 =
      if ltb f.int_no 21
      then kprint_color (get_or exception_names f.int_no []) vga_white vga_red s1
      else s1 in
    let s3 = kprint_color (codes "INT=") vga_light_grey vga_black (kprint (codes "\n") s2) in
    let s4 = kprint_color (codes "  ERR=") vga_light_grey vga_black (kprint_dec f.int_no s3) in
    let s5 = kprint_color (codes "  EIP=") vga_light_grey vga_black (kprint_hex f.err_code s4) in
    kprint (codes "\nSystem halted.\n") (kprint_hex f.eip s5)

abbrev pub with_screen : (Screen → Screen) → Machine → Machine
with_screen f m = record m { kernel = record m.kernel { screen = f m.kernel.screen } }

-- the call of a handler that may be NULL
abbrev pub call_handler : Option Handler → Frame → Machine → Ended
call_handler none f m = back f m
call_handler (some h) f m = h f m

-- the yield, when it is asked for
unfoldable pub yield_if : Bool × Sched → Frame → Machine → Ended
yield_if (asked, s) f m =
    if asked
    then elim (task_yield s) [
      | done none s1 ↦ back f (record m { kernel = record m.kernel { sched = s1 } })
      | done (some t) s1 ↦ gone t (record m { kernel = record m.kernel { sched = s1 } })
      | Task.halted ↦ halted
      | Task.out_of_fuel ↦ out_of_fuel
    ]
    else back f (record m { kernel = record m.kernel { sched = s } })

-- `if (task_should_resched()) task_yield();`
unfoldable pub reschedule : Frame → Machine → Ended
unfolding yield_if
reschedule f m = yield_if (task_should_resched m.kernel.sched) f m

-- behind the handler of a device
unfoldable pub after_irq : ℕ → Ended → Ended
unfolding reschedule
after_irq irq (back f m) = reschedule f (record m { pic = pic_send_eoi irq m.pic })
after_irq irq (gone t m) = gone t m
after_irq irq (stopped m) = stopped m
after_irq irq halted = halted
after_irq irq out_of_fuel = out_of_fuel

-- the value of a system call goes into eax
unfoldable pub answer_call : Frame → Machine → Syscall.Answer → Ended
answer_call f m (Syscall.back v k) =
    back (record f { regs = record f.regs { eax = v } }) (record m { kernel = k })
answer_call f m (Syscall.gone t k) = gone t (record m { kernel = k })
answer_call f m Syscall.halted = halted
answer_call f m Syscall.out_of_fuel = out_of_fuel

unfoldable pub isr_handler : Table → Frame → Machine → Ended
unfolding after_irq answer_call report_exception
isr_handler handlers f m =
    let handler = handlers f.int_no in
    if ltb f.int_no 32
    then elim handler [ some h ↦ h f m | none ↦ stopped (with_screen (report_exception f) m) ]
    else if ltb f.int_no 48
    then after_irq ((f.int_no - 32) % 2 ^ 8) (call_handler handler f m)
    else if f.int_no == 128
    then answer_call f m (syscall_dispatch f.regs m.kernel)
    else back f m
