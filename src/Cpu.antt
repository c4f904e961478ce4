-- ===== src/Cpu.antt =====
-- The tables of the processor and the interrupt controller, of src/cpu. The assembly that loads the
-- tables' registers and that enters a handler is outside.
pub mod Gdt
pub mod Idt
pub mod Pic
pub mod Tests
pub mod Tss
