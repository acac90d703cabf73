-- ===== src/Lib.antt =====
-- TPSOAPROBADO simulates an operating system in four programs that exchange packages over sockets: a
-- kernel that schedules processes, CPUs that execute them, a memory module with paging and swapping,
-- and I/O devices. This library models the parts below and proves what is listed at the end.
--
-- Base has the shared names: Boolean tests on the native numbers, lists measured by them, Option,
-- and in Base/Int32 the division of C, which rounds to 0, on the bit pattern of an int32_t and a
-- positive divisor.
--
-- Utils is utils/src. Utils/Buffer and Utils/Package are utils/src/utils/serialization/buffer.c and
-- package.c: a buffer is a list of bytes with a cursor, a socket the list of the bytes that come. An
-- int32_t is its bit pattern, a number below 2 ^ 32, with the low byte first. Utils/Dtp has the
-- packages of utils/src/utils/DTPs under the names of their functions (`create_syscall_package`,
-- `read_syscall_package`), and Utils/Enums the constants of utils/src/enums. Sends are whole; a peer
-- that closes inside an item makes the outcome indeterminate.
--
-- Memoria is memoria/src. Memoria/Frames is the allocator of user_space/frame_manager.c and of
-- swap_space/swap_manager.c, which have the same loops; the bit array of the commons library is the
-- interface Memoria/BitArray. Memoria/PageTable is kernel_space/page_table.c,
-- kernel_space/assign-frames-to-process.c and client/get-page-entry/get-page-entry.c: a page table
-- is a tree, a pointer into it the list of the indices on the way. The breadth-first loop runs on
-- fuel, one more than the number of tables, which is enough (Memoria/PageTable/Collection).
-- Memoria/UserSpace is user_space/user_space_memory.c over the list of the bytes (Memoria/Bytes); an
-- access that leaves the array is `none`. Memoria/Processes is kernel_space/process_manager.c with
-- the state of the module (`Memoria`), Memoria/Creation client/init-process/init-process.c,
-- Memoria/Swap swap_space/swap_out.c, swap_in.c and the file of swap_manager.c, Memoria/Requests
-- client/handlers.c and the handlers in the folders beside it, one request at a time.
--
-- Cpu is cpu/src. Cpu/Tlb, Cpu/Mmu and Cpu/Cache are mmu.c: the lookaside buffer with FIFO and LRU,
-- the page walk and the translation, the page cache with its two clocks; Cpu/Cache/Writeback is what
-- the cache exchanges with the memory. What the memory answers is a parameter: the frame that the
-- page walk gives, and the bytes of a page. In Cpu/Mmu/Walk the parameter is the answer of
-- Memoria/PageTable, so the two programs meet there. The clocks run on fuel; the number of entries
-- plus one is enough. Cpu/Instruction is the decoding of instructionCycle.c with
-- utils/src/enums/Einstruction_codes.c, Cpu/Execution its execution and its interrupts, and a round
-- of the loop of main.c. Cpu/Cycle is the loop of main.c with the memory of Memoria/Requests at the
-- other end: `rounds` runs it for at most a given number of rounds, and Cpu/PastEnd is about a
-- process that is past its end.
--
-- Kernel is kernel/src. Kernel/Pcb is repository/pcb/pcb.c, Kernel/Lists the seven lists of
-- repository/process, Kernel/Scheduler the long-term and medium-term schedulers of
-- kernel_logic/scheduler, the end of an I/O request (handlers/io/io_completion.c) and the entry of a
-- process. Lists hold processes as values: a process is in one list at a time. The clock, the sort
-- of the commons library and the answers of the memory are parameters. Each operation is one step,
-- under its locks. The loops of the long-term scheduler run on fuel, the length of their list plus
-- one. Kernel/Dispatch is kernel_logic/scheduler/short_scheduler.c with kernel_logic/algorithms and
-- repository/cpu/cpu_connections.c. Kernel/Devices is repository/io and the requests of handlers/io,
-- Kernel/Syscalls the handlers of handlers/cpu/syscall, chosen by
-- handlers/cpu/client/handle_dispatch_client.c, and handlers/io/io_disconnected.c; the schedulers
-- that they start are separate steps. `none` is a NULL that the code reads through.
--
-- Tests has inputs at which the theorems are applied.
--
-- Not modelled: semaphores, and the interleavings of threads that hold none; the estimates of SJF as
-- the sort leaves them, which depend on the comparisons that the sort makes (a parameter); the
-- listener thread of the CPU; the configuration, logging, sockets and entry points, which are calls
-- of the system and of the commons library; the device program, which sleeps; the release of memory.
pub mod Base
pub mod Utils
pub mod Memoria
pub mod Cpu
pub mod Kernel
pub mod Tests
