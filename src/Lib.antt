-- ===== src/Lib.antt =====
-- A model of the kernel of OSver1, a small 32-bit operating system, and theorems about it.
--
-- Parts and files. Each part of the kernel is a module, named after the source file that it
-- models; its functions keep the names of the C functions.
--   * Kheap models src/mem/kheap.c, the kernel heap. The block headers are a store from addresses to
--     records, the payload bytes stand beside them, and a call of kheap_panic is the outcome
--     `halted`. Of the functions of the heap only kcalloc writes bytes; a byte that lies in a header changes it. Kheap.Layout is the abstract heap, a list of block sizes; Kheap.Chain relates the two.
--   * Pmm models src/mem/pmm.c, the bitmap of physical pages, and its initialisation from the e820
--     table that the boot loader leaves.
--   * Paging models src/mem/paging.c: the page directory, the page tables in pages of Pmm, and the
--     translation of every address. The code reaches a table, and Elf a page of a program, through a virtual
--     address equal to the physical one, which works where the processor translates it so, as
--     paging_init sets it up for the first 4 MB. A write anywhere else marks the state as `faulted`; what
--     such a write does is not modelled. Paging.Low has the condition under which none happens.
--     The flush of an address and the control registers are outside.
--   * Elf models src/proc/elf.c: the headers of a program file, the loading of a segment page by page over
--     Paging and Pmm, and the release of an image. Page contents stand beside the words of the tables.
--   * Ata models what src/drivers/ata.c shows to its callers: sectors of 512 bytes on two drives,
--     with the checks of the arguments and the point where an error ends a transfer.
--   * Fat32 models src/fs/fat32.c on that disk: State has the static variables and the monad of
--     the operations, Name the 8.3 names, Table the mount and the allocation table, Dir the walks of
--     a directory, File the files and Tree the directories.
--   * Task models src/proc/task.c: the ring of tasks, the scheduler and the first stack frames of a
--     task. Tasks and stacks are allocated from the heap of Kheap, and the image of a dead task is released
--     by Elf. Task.Ring relates the ring to a list of addresses.
--   * Cpu models src/cpu: Gdt, Tss and Idt the descriptors and gates, Pic the interrupt controllers as ports.
--   * Interrupt models src/cpu/isr.c: the table of handlers and the dispatch of exceptions, devices and system
--     calls, with the handlers of page faults, ticks and keys, over Task, Syscall, Cpu.Pic and Keyboard.
--   * Serial models src/drivers/serial.c: the writes to COM1, with the answers of the device as a parameter.
--   * Kernel models src/kernel/kernel.c: the initialisations of all parts in the order of `kmain`.
--   * Keyboard models src/drivers/keyboard.c: the ring buffer and the interrupt handler.
--   * Screen models src/drivers/screen.c: the text cells, the cursor, and the printed numbers.
--   * Timer models src/drivers/timer.c: the ticks, and how long a sleep waits.
--   * Syscall models src/proc/syscall.c: the dispatcher and the four system calls.
--   * Shell models src/shell/shell.c over these parts: Text reads lines and numbers, Path and Cd keep the path
--     that is shown, Descend finds the parent of what a path names, Files has the commands on files,
--     Memory those on memory and the screen, Tasks and Exec those on tasks, Line the line
--     editor and the dispatch, Info what only tells something. Track and Room are about cd, and Runs, Stays and
--     Launch about the runs of the commands on files and of exec. The characters that the keyboard returns
--     are a list, and buffers from the heap are passed as their bytes.
--   * Bits has the laws of the bit operations, Prelude the shared names, tests and list lemmas.
--
-- Numbers are natural numbers; where a 32-bit word can wrap around, the model takes it modulo
-- 2^32. Static variables are the fields of a record that an operation takes and returns. Pointers are
-- addresses, and NULL is 0. Results of 0 and -1 are Booleans, or options where a value comes along.
--
-- Bounds and fuel. The loops over a heap's blocks have fuel for 13109 blocks, more than headers
-- of 20 bytes fit in the heap of 256 KiB. A walk of a cluster chain has fuel for 2^28 clusters, the number of
-- different values of an entry, and a walk of the ring of tasks for 2^32 addresses: a chain or
-- a ring that is longer comes back to where it was, and there the code does not return either. The
-- loop that writes a file has fuel for each byte, and takes at least one byte off in each round.
--
-- The parser of a line has fuel for each of its characters, and a sleep for the ticks that it waits.
--
-- The wait for the serial port has fuel for the reads of its status, and the sleep of the shell for the ticks
-- that it waits, when the other tasks leave the counter alone.
--
-- Not modelled: the assembly (boot, interrupt entry, context switch, the loads of the table registers), the
-- ports of the disk, and the two programs that run as users. A
-- switch of the context is a result that names the task. What other tasks do until the shell is switched back
-- to is a parameter of its commands, and so are the addresses of the assembly routines in a new task's
-- frame. The screen keeps the arguments of its calls of
-- serial_putc as a list of its own.
pub mod Ata
pub mod Bits
pub mod Cpu
pub mod Elf
pub mod Fat32
pub mod Interrupt
pub mod Kernel
pub mod Keyboard
pub mod Kheap
pub mod Paging
pub mod Pmm
pub mod Prelude
pub mod Screen
pub mod Serial
pub mod Shell
pub mod Syscall
pub mod Task
pub mod Timer
