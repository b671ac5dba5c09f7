-- ===== src/Lib.antt =====
-- loliOS is a teaching kernel for the 32-bit PC, in student-distrib/. User programs call it through
-- file descriptors; a process sees its own memory in one 4MB page, and prints on one of three
-- terminals, of which one is displayed. This library models the kernel's own logic and some of the
-- programs in syscalls/, and proves what they promise.
--
-- The parts, and the files that model them:
--   Memory: the checks of userspace pointers and the copies to and from user memory, of
--     student-distrib/lib.c. Memory/Bytes has runs of bytes in a memory, a function from addresses.
--   MemOps: the assembly of memset, memcpy and memmove of the same file, each loop a function of the
--     registers that it changes.
--   Strings: the string functions of the same file. Strings/Numbers and Strings/Parsing have the
--     digits that itoa writes and atoi_s reads.
--   Paging: the tables of student-distrib/paging.c; Paging/Translate has the processor's translation.
--   Terminal: student-distrib/terminal.c. Terminal has the output of one terminal, Terminal/Pages
--     the page of characters that it refines by Terminal/Screen, Terminal/Console the static state and
--     the switch of the displayed terminal, Terminal/Input the line editor, Terminal/Reads the files.
--   FileSystem: the read-only file system of student-distrib/filesys.c, with the contents of a file
--     as a function of the offset in FileSystem/Spec, and the file operations in FileSystem/Syscalls.
--   FileObj, File: the file objects and the descriptors of student-distrib/file.c, which call the
--     operations of FileSystem, Terminal/Reads and Rtc: opening and closing in File, reading and
--     writing in File/Transfer.
--   Process: the process table, the choice of the next process and the clock, of
--     student-distrib/process.c; Process/Command has the command line, Process/Loader the copy of a
--     program, Process/Context the change of the executing process, Process/Execution its creation
--     and end, and Process/Calls the system calls on it.
--   Regs: the registers that an interrupt pushes, of student-distrib/idt.h, as the 80 bytes that they
--     take. Signals: student-distrib/signal.c: the table in Signals, the frame on the user stack and
--     the return from a handler in Signals/Delivery, the choice of what to do in Signals/Handling.
--     Signals/Acting says what that choice leaves, and Signals/Starting how a handler starts.
--   Interrupts: the dispatch of student-distrib/idt.c, which turns exceptions to signals, and the
--     keyboard's interrupt, from the packet to the terminal and the signals. Interrupts/Gates has the
--     table that idt_init fills.
--   Devices: the interrupts of student-distrib/ps2.c, mouse.c, pit.c and rtc.c, with the bytes that
--     the ports of the PS/2 controller give as a list.
--   Syscalls: the system calls, from the registers of the caller to their result, of
--     student-distrib/syscall.S and student-distrib/idt.c. System: the start and every entry to the
--     kernel as a relation between its states.
--   Programs: user programs over the memory of their process. Programs/Support has the string
--     functions of syscalls/ece391support.c, Programs/Files the programs syscalls/ece391cat.c,
--     ece391ls.c and ece391echo.c over the system calls of Programs/Calls, an interface that
--     Programs/Files/Running fills with those of the kernel, Programs/Paint and Programs/Paint/Strokes
--     syscalls/ece391paint.c; Programs/Paint/Sketches has the drawing that it refines, and
--     Programs/Paint/Pictures the page that shows it.
--   Rtc: student-distrib/rtc.c. Keyboard: student-distrib/keyboard.c. Irq: student-distrib/i8259.c
--     and student-distrib/irq.c.
--   Prelude: shared names, tests, lists, signed integers and 32-bit words. Tests: concrete inputs.
--
-- A definition has the name of the function that it models. State is passed on explicitly, a failed
-- assertion is `none`, a table is a function of its index, and numbers wrap at 2^32 where the code's
-- do. The loops of the source are structural recursions on the number of rounds that are left, so
-- none runs out of fuel. A system call that sleeps takes what it sees at each wake-up as a list, and
-- is `none` when the list ends first.
--
-- The loops of the programs in syscalls/ that end when the kernel says so take the number of rounds, or
-- the list of what each round sees, and are `none` when it is used up first.
--
-- Not modelled: the boot code, the descriptor tables, the assembly that enters and leaves the kernel
-- and switches stacks, the initialisation of the devices, printf and puts, and the other programs in
-- syscalls/ and fish/, which are clients of the same system calls. The writes to control
-- registers are left out of the paging model.
pub mod Prelude
pub mod Memory
pub mod Regs
pub mod MemOps
pub mod FileObj
pub mod Paging
pub mod Terminal
pub mod FileSystem
pub mod Signals
pub mod Strings
pub mod Interrupts
pub mod Devices
pub mod Process
pub mod Rtc
pub mod File
pub mod Keyboard
pub mod Irq
pub mod Syscalls
pub mod System
pub mod Programs
pub mod Tests
