-- ===== src/Lib.antt =====
-- The FrogOS2 kernel, a 64-bit kernel in C with preemptive processes, and theorems about it.
--
-- The parts, and the files that model them (paths from the repository's root):
--
--   Mem (mem.c): the bump allocator. A Heap is the pair of globals `heap` and `heap_size`; `malloc`
--     returns an address, 0 for NULL, and the new heap.
--   Memory (lib/memcpy.c, memset.c, memcmp.c, strlen.c): memory is a function from addresses to cells,
--     and `rep movsb` and the other string instructions are loops over cells. On overlap `memcpy` reads
--     what it has written, as the instruction does. Memory.Cells states `memcpy` on lists of cells.
--   Division (lib/gcc.c): `__udivmoddi4`, on 64-bit numbers.
--   Port (include/port.h, and `disable` and `enable` of idt.c): what the hardware is told is a log,
--     the newest event first; what a port reads is an argument `inportb`.
--   Conio (lib/conio.c): a Screen is the video memory, the cursor, the attribute and the bytes written
--     to the display's ports. Conio.Grid specifies it as a terminal of 25 rows of 80 cells.
--   Gdt, with Selectors (gdt.c, include/gdt.h): descriptors and the task state segment. Gdt.Decode reads
--     a descriptor as the processor does.
--   Idt (idt.c, irq.h): interrupt descriptors, the handlers of each line as linked lists in a store of
--     nodes, `irq_handler` and the masks. `HasLists` of Idt.Handlers says which nodes each list has.
--   Context, Queue and Process (include/process.h, process.c): a Kernel is the globals of process.c with
--     the heap and the saved contexts. The interrupt frame is passed in and out of
--     `schedule_process`. A Queue is an array of 128 pids with head and tail. Process.RoundRobin
--     specifies the scheduler as a ring of pids, the one on the CPU first, and what is left of
--     its slice; `view` of Process.Valid maps a kernel to it, and `IsValid n` is the invariant of a
--     kernel with the processes 0 to n - 1. Process.Reach has the steps of the scheduler and what they
--     reach; a step in which a process gives up its slice has no interrupt within. Process.Pool
--     forgets the order of the ring, by a quotient.
--   Process.Sleep, with Order, Sort and Correct (process.c): `sleep_process` and its sort.
--   Pit (pit.c): a Machine is kernel, screen, counter and log; `pit_handler` runs the scheduler on it.
--   Syscall (syscall.c, include/syscall.h): `ksyscall` on a Machine. It uses Conio for SYSCALL_WRITE and
--     Process for yield and SYSCALL_SLEEP. Syscall.Rounds lets the timer interrupts of Pit run the other
--     processes meanwhile; Syscall.Interrupted has one come within a yield.
--   Syscall.Stubs (lib/syscall.c): the stubs of user processes, which enter a kernel that is an
--     argument. The instruction puts the return address into rcx and the flags into r11.
--   Main (cmain.c): `cmain`, which calls the set-up functions of Gdt, Idt, Pit and Process in order and
--     threads the heap, the log and the screen through them, up to its last loop. What each printf
--     does to the screen is an argument.
--   Init (init.c): the random numbers of `user_task`, which it passes to SYSCALL_SLEEP.
--   Dump (lib/dump.c): what `dump` prints, as rows of an offset and the bytes behind it.
--   Checksum (test.c): the sum that `main` prints; what it reads of the disk image is an argument.
--   Mkfs (fs/mkfs.c, fs/fs.h): the image of an empty file system; its number of blocks, not 0, is given.
--   Prelude: what all of them share.
--
-- Numbers. Every machine word is a native number with its wrap-around written out; an int32_t that
-- may be negative, such as `current_pid`, is its bit pattern. The cursor, which the code keeps in ints,
-- is a number: the column below 80, the row below 25. Arrays are functions of the index.
--
-- Fuel and bounds. The loops of `sleep_process` go over an array of 128 entries and have 128
-- rounds. `dump` takes fuel, a sixteenth of the bytes and one more. `justify` and `reduce` of
-- Division have 64 and 65 rounds at their call, enough for every divisor by `udivmoddi4_lem`.
-- `strlen` and `puts` take fuel, and need more than the string has characters; `run_handlers`
-- needs more than the list has nodes. A system call that executes `hlt` takes a list of functions
-- on machines, one for each `hlt` that the process gets over: what interrupt handlers and other
-- processes do meanwhile.
--
-- Not modelled: assembly (boot.asm, stage2.asm, irq.S, asm.S, main.S); lib/printf.c, a copy of
-- another project's library, whose calls are values of the type Message, arguments or left out;
-- `io_wait`; the loads of processor registers (lgdt, ltr, and lidt but for its operand); the text
-- that exceptions print; `print_run_queue`, which only prints; the file calls of mkfs.c and
-- test.c. Interrupts that come while `cmain` sets up are not modelled either.
pub mod Prelude
pub mod Mem
pub mod Queue
pub mod Memory
pub mod Port
pub mod Conio
pub mod Division
pub mod Context
pub mod Gdt
pub mod Idt
pub mod Process
pub mod Pit
pub mod Syscall
pub mod Checksum
pub mod Dump
pub mod Init
pub mod Main
pub mod Mkfs
