-- ===== src/Lib.antt =====
-- A verification library for the PKE lab kernel: a RISC-V teaching kernel that runs one user
-- program on the Spike simulator and serves its system calls, its timer and its backtraces.
--
-- The parts and how they interact. A trap from user mode enters at smode_trap_vector, which saves
-- the registers in the process's trap frame and jumps to smode_trap_handler (kernel/strap.c). The
-- handler serves a system call through do_syscall (kernel/syscall.c) or counts a timer tick, and
-- ends in switch_to (kernel/process.c), which returns to the process. The timer itself interrupts
-- in M mode (kernel/machine/mtrap.c) and is passed on as a soft interrupt. Before the process
-- runs, the loader (kernel/elf.c) reads its segments and its symbols from a host file. All output
-- goes through sprint (spike_interface/spike_utils.c), which formats with vsnprintf
-- (util/snprintf.c) into a buffer of 256 bytes and writes that to the host. On the process's side
-- the user library (user/user_lib.c) makes the system calls.
--
-- Files and code:
--   Base            numbers, Boolean tests, lists, words, bits and byte-addressed memory
--   Hart            registers and constants of kernel/riscv.h and kernel/config.h
--   World           the shared state, the process of kernel/process.h and the outcomes of a run; Runs
--                   has laws of commands one after another
--   Util/Print      util/snprintf.c: vsnprintf; Spec is what it is to print, Refine and Decimal the
--                   proofs
--   Util/Strings    util/string.c: strlen, strcmp, atol; proofs in Lexical, Chars and Atol
--   Util/Copy       util/string.c: memcpy, memset, memmove, strcpy, safestrcpy; proofs in Move,
--                   Words, Fill and Ended
--   Spike/Utils     spike_interface/spike_utils.c: sprint, shutdown, do_panic, poweroff,
--                   kassert_fail; proofs in Console
--   Spike/Htif      spike_interface/spike_htif.c, the lock of atomic.h, and frontend_syscall of
--                   spike_utils.c; its putstring and vprintm in Console; proofs in Packing and
--                   Answers
--   Spike/File      spike_interface/spike_file.c: the table of host files; proofs in Refs and
--                   Standard, the calls on a file in Calls
--   Kernel/Backtrace, Kernel/Syscall   kernel/syscall.c; proofs on the backtrace in Symbols, Labels,
--                   Chain, Lines, Logs, Frames, Bounds, Blind and Reads, on the system calls in Quiet and Results
--   Kernel/Process  kernel/process.c and the return of kernel/strap_vector.S; proofs in Resume
--   Kernel/Trap     kernel/strap.c and the vector of kernel/strap_vector.S; proofs in Ecall, Timer
--   Kernel/Machine  kernel/machine/mtrap.c and mtrap_vector.S; proofs in Tick
--   Kernel/Startup  kernel/machine/minit.c; proofs in Delegation, Supervisor, Devices and Entry
--   Spike/Dts       spike_interface/dts_parse.c; Query has spike_memory.c and the scan of
--                   spike_htif.c; proofs on numbers and regions in Swap, Cells, Regions, Size and
--                   Covering; Tree is a device tree apart from its bytes, with its layout and its
--                   visit, Visit the proof that the scan is the visit, Says, Device and Amount what
--                   the two queries find in a tree
--   Kernel/Elf      kernel/elf.c: elf_init, elf_load; proofs in Segment, Load
--                   and Complete
--   Kernel/Symbols  kernel/elf.c: load_user_symbols; proofs in Bounds, Complete,
--                   Held and Overrun
--   Kernel/Boot     kernel/elf.c: parse_args, load_bincode_from_host_elf; kernel/kernel.c; proofs in
--                   Args, Load and Start
--   User            user/user_lib.c; proofs in Calls and Library; App is the application,
--                   user/app_print_backtrace.c, with proofs in its Frames, Nested, Functions and Main
--   Tests           sample states, and the theorems applied to them
--
-- State and outcomes. A C function on shared state is a function from World to Run: it returns a
-- value and the new world, halts in the shutdown's loop, meets behaviour that C leaves undefined
-- (fault), or has used up its fuel (diverges). Numbers are natural numbers with the wrap of
-- their C type written out. Memory is a function from address to byte. CSR writes set the whole
-- register. The trap frame is kept as a record beside memory, since the only one is that at
-- USER_TRAP_FRAME, and so is the kernel's data: stores to their addresses are not seen in them. A
-- program whose segments overwrite them is loaded by the code, which makes no check, so the
-- theorems on the start ask for one that spares them; where the kernel's image ends is a parameter.
-- A load in C gives what memory holds there, at any address and alignment. On the machine a
-- misaligned or unmapped one traps into handle_misaligned_load or handle_load_access_fault
-- (kernel/machine/mtrap.c), whose panic ends the run; that is modelled for the trap and not for the
-- functions that load. The CLINT's compare registers are a function from the hart.
--
-- Fuel. The walk of a backtrace has the size of the address space below the user stack plus one,
-- and each round's frame pointer is greater than the one before. The loops on C strings have
-- 2 ^ 64 rounds, the whole address space; decimal digits have 20, one more than a long needs.
--
-- The loops that poll the host take as many rounds as they are given; a host that answers every
-- command after finitely many reads makes a finite number enough. A scan of the device tree takes
-- a round for each token, so that as many rounds as the tree has tokens are enough; the loop over
-- the memory regions has one round more than the property has bytes, and a region takes up at least
-- four.
--
-- The host. What it answers is an argument: the result of an open, the bytes of a file, the
-- command line, and, in Spike/Htif, what the two registers become at every read. The code above
-- sprint is modelled over the bytes that it writes and not over the registers.
--
-- The calling convention. The application's functions are calls of one another, for the backtrace
-- to find. What the compiler makes of a call is a parameter of User/App, with what the backtrace
-- relies on as its hypotheses: frames of at most 256 bytes, at whose top the return address and
-- the caller's frame pointer are saved.
--
-- Not modelled: the instructions of kernel/machine/mentry.S, which set the first stack; the rounding
-- macros of util/functions.h; and spike_file_stat with copy_stat, which nothing calls and which
-- fill a struct of the C library.
pub mod Base
pub mod Util
pub mod Hart
pub mod World
pub mod Spike
pub mod Kernel
pub mod User
pub mod Tests
