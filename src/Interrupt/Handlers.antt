-- ===== src/Interrupt/Handlers.antt =====
-- The handlers that the drivers register: `page_fault_handler` of src/mem/paging.c, `timer_irq` of
-- src/drivers/timer.c and `kb_irq_handler` of src/drivers/keyboard.c.
use osver.Prelude.{ℕ, ◌==◌, if◌then◌else◌, bit_and, List}
use osver.Screen.{Screen, kprint, kprint_color, kprint_hex, vga_black, vga_light_grey}
use osver.Keyboard
use osver.Task.Create.{task_tick}
use osver.Timer
use osver.Interrupt.{
  Frame, Handler, Table, back, stopped, with_screen, isr_register, vga_red, vga_white,
}
use osver.Shell.Text.{codes}

-- a bit of the error code chooses one of two texts
abbrev pub either_text : ℕ → ℕ → List ℕ → List ℕ → Screen → Screen
either_text err bit set clear s = kprint (if bit_and err bit == 0 then clear else set) s

unfoldable pub report_fault : ℕ → Frame → Screen → Screen
report_fault fault_addr f s =
    let err = f.err_code in
    let s1 = kprint_color (codes "\n*** PAGE FAULT ***\n") vga_white vga_red s in
    let s2 = kprint_hex fault_addr (kprint_color (codes "addr=") vga_light_grey vga_black s1) in
    let s3 = kprint_hex f.eip (kprint_color (codes "  eip=") vga_light_grey vga_black s2) in
    let s4 = kprint_hex err (kprint_color (codes "  err=") vga_light_grey vga_black s3) in
    let s5 = kprint (codes "\n  reason: ") s4 in
    let s6 = either_text err 0x1 (codes "protection-violation") (codes "non-present-page") s5 in
    let s7 = either_text err 0x2 (codes " | write") (codes " | read") s6 in
    let s8 = either_text err 0x4 (codes " | user-mode") (codes " | kernel-mode") s7 in
    let s9 = if bit_and err 0x8 == 0 then s8 else kprint (codes " | reserved-bit-set") s8 in
    let s10 = if bit_and err 0x10 == 0 then s9 else kprint (codes " | instruction-fetch") s9 in
    kprint (codes "\nSystem halted.\n") s10

unfoldable pub page_fault_handler : Handler
unfolding report_fault
page_fault_handler f m = stopped (with_screen (report_fault m.cr2 f) m)

unfoldable pub timer_irq : Handler
timer_irq f m = back f (record m {
  kernel = record m.kernel {
    ticks = Timer.timer_irq m.kernel.ticks;
    sched = task_tick m.kernel.sched;
  };
})

unfoldable pub kb_irq_handler : Handler
kb_irq_handler f m = back f (record m { keyboard = Keyboard.kb_irq_handler m.scancode m.keyboard })

-- the registrations of `keyboard_init`, `paging_init` and `timer_init`
unfoldable pub keyboard_init : Table → Table
keyboard_init t = isr_register 33 kb_irq_handler t

unfoldable pub register_fault : Table → Table
register_fault t = isr_register 14 page_fault_handler t

unfoldable pub register_timer : Table → Table
register_timer t = isr_register 32 timer_irq t
