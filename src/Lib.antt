-- ===== src/Lib.antt =====
-- The kernel of so-tpe: processes, scheduling, pipes, semaphores, the keyboard, the console, the clock,
-- the free memory and the system calls; strings and printing of its C library; and the parser of its
-- shell.
--
-- A timer tick calls `schedule`, which chooses the process that runs next; system calls create,
-- kill and wait for processes, change their priority and status, read and write pipes, and use
-- semaphores. Pipes and semaphores block and wake processes by `set_status` and give up the
-- processor by `yield`; the process table opens and closes pipes. All of them take memory from
-- `mm_alloc`. A read or a write goes by the caller's descriptor to a pipe, the keyboard or the console.
--
-- Files, and the code that they are about:
--   Common            numbers, machine words, lists, arrays as functions, and a ring buffer's window
--   State             Kernel/include/{process,scheduler,list,pipe,globals}.h: the data, and the list
--                     operations of Kernel/lib/list.c
--   Scheduler/Peers   what the scheduler calls outside of itself, as an interface
--   Scheduler/Table   `set_priority` and `set_status` of Kernel/processes/scheduler.c, and
--                     `free_process` of Kernel/processes/process.c
--   Scheduler/Dispatch   `scheduler_init`, `get_next_pid`, `yield`, and the parts of `schedule`
--   Scheduler/Lifecycle  `create_process`, and `init_process` of Kernel/processes/process.c
--   Scheduler/Exit    `kill_process`, `waitpid`, `schedule`, and `get_process_fd` of
--                     Kernel/processes/process.c
--   Scheduler/Info    `get_process_info` of Kernel/processes/process.c
--   Scheduler/NextPid the search for an unused pid
--   Scheduler/Wf      the consistency of the process table with the queues
--   Pipe              Kernel/pipes/pipe.c: the inner loops of a write and a read in Buffer, the table
--                     of pipes and `pipe_open` in Manager, `pipe_write` and `pipe_read` in Transfer,
--                     `pipe_close` in Close; proofs in Fifo, RoundTrip, Write, Read,
--                     Channel, Wf and ReadWf
--   Lists             Kernel/lib/list.c on a heap of nodes, with proofs in Linked, Append, Around,
--                     Remove and Iterate
--   Keyboard          Kernel/drivers/keyboardDriver.c, but for its semaphore, with proofs in
--                     Contents, Codes, Typed, Desync
--   Input             the interrupt of a key and `getCharBlocking` of keyboardDriver.c over the
--                     semaphores, with proofs in Ready and Wf
--   Semaphore         Kernel/semaphores/semaphores.c, with proofs in Mutex, Value,
--                     Uncontended and Wf
--   Console           Kernel/drivers/consoleDriver.c: the text and its cursor in Console, the lines in
--                     Layout, what is drawn in Render, `console_write` and `console_clear` in Write;
--                     proofs in Text, Visible, Bounds and Echo
--   Clock             Kernel/drivers/rtc.c, Kernel/idt/time.c and `sys_sleep`, with proofs in Rtc, Sleep
--   Memory            Kernel/memory/firstFitMemory.c, with proofs in FirstFit, Joined
--                     and Release
--   Buddy             Kernel/memory/buddyMemory.c: powers of two in Powers, a zone's form in Blocks, its
--                     changes in Moves, Adding, Weight, Split, Take, Merge, Start, the calls in Calls,
--                     Runs and Sound
--   Bytes             Kernel/lib.c: `memset`, `memcpy` and `memmove`, with proofs in Moved
--   Syscalls          Kernel/idt/syscalls.c: the calls on processes, semaphores and pipes in Syscalls,
--                     `sys_read` and `sys_write` in Files, those on memory in Memory; proofs in Keys,
--                     Output, Pipeline and Reachable
--   Libc              Userland/libc/src: strings of string.c, ctype.c, and `atoi` of stdlib.c, with
--                     proofs in Compare, Tokens and Decimal; `itoa` of stdlib.c in Print, with proofs
--                     in Reverse, Digits and Itoa; `printf` of stdio.c in Printf, with proofs in Expand,
--                     Meaning and Says
--   Shell             Userland/shell/shell.c: the parser of a line, with proofs in Words and Parse
--   Tests             the theorems at concrete states
--
-- How the state corresponds to the code. The static variables of the scheduler and of the pipe
-- manager are the fields of one record, `Kernel`. A `Node` of the process table is a `Slot`: its
-- block, the block of the process and the process itself. A list is a queue of the nodes' blocks and
-- pids in order, without the links and the size that lib/list.c keeps; `Lists` has these. To remove a
-- node that is not in the list, such as the idle process's, leaves the sequence as it is, where
-- lib/list.c would set the head and the tail by the node's own links. A pipe is its
-- structure with its block, by which the code's comparisons of pipe pointers are modelled. An
-- int16_t or int32_t is its bit pattern, a byte that is read as a char too, so that -1 is 65535 in 16
-- bits and the end-of-file mark is 255. Arithmetic on machine words wraps where the code's does.
--
-- A system call takes and gives a `Machine`, which is a `World`, the kernel with its semaphores and the
-- keyboard, and the console; an answer is the number that the caller gets, or that the call reads
-- through a pointer to something that was freed, or ran out of fuel. `kbd_semaphore` is the semaphore 0
-- of the world. A key posts it and a read waits for it, with all that this does to the processes; the
-- field `tokens` of `Keyboard` counts, without a bound, the posts that no wait has taken, and stands
-- for the semaphore in the theorems about the driver alone. A 64-bit argument is cut to the
-- type that the code casts it to. Buffers of the caller are lists of bytes, and pointers of the caller
-- are valid. The console's drawing is the list of the calls that it makes of
-- Kernel/drivers/videoDriver.c, whose screen is four numbers. The clock is the sequence of answers that
-- the calls of `rtc_get_seconds` get.
--
-- Memory. `mm_alloc` is an oracle: `grants` lists the answers that the coming calls get, false and
-- the end of the list being NULL, and a block that is granted is a new number. `mm_free` records the
-- block. The theorems hold for every list of answers, unless they say that allocations succeed.
-- `Memory` has the allocator itself, by addresses in units of 16 bytes: its memory is a function from
-- addresses to headers, and the address of the sentinel is that of any other block. `Buddy` has the one
-- that takes its place in a kernel built with BUDDY: pages by their number, a list of them as the
-- sequence of its nodes, and the exclusive or with 2^order as the sum or the difference that it is.
--
-- Other code. The interrupt of `yield` returns when the caller runs again: the state then is a
-- function of the state before, `switch` of `Peers`, about which a theorem assumes at most that it
-- keeps the table consistent; `others` of the semaphores is the same. `_initialize_stack_frame` is a
-- function of the stack and the arguments. Between the scheduler and the pipes, which call each
-- other, the interface `Peers` stands on the side of the scheduler, and `with_pipes` fills it.
--
-- Fuel. The search of `create_process` has 21 steps, one more than there are pids, and `next_unused`
-- answers `none` only where the code's loop does not end. The loop of `pipe_get` has a step more than
-- there are pipes. The loops that block, those of `pipe_write`, `pipe_read`, `acquire_mutex` and
-- `down`, have fuel as an argument, since what other processes do decides how often they turn; the
-- theorems about their results give a fuel that suffices. The loops of the console have as much fuel as
-- there are characters to go through, and the loops of `sys_sleep` one step for each reading. The
-- searches of `mm_alloc` and `mm_free` have fuel as an argument, one step of which goes to the
-- next block of the free list. The loops of the buddy system go through the orders up to `max_order` and
-- need no fuel, but for the one that adds the memory, which has a step for each page.
--
-- Not modelled: the text of a process's arguments, and of its name where it is copied at the creation;
-- the video driver, which writes pixels; the interrupt tables and the dispatch of interrupts and of
-- system calls by number; the loader of the modules and the boot code; of the programs in Userland all
-- but the shell's parser, and of their library what reads lines, copies strings and wraps system calls.
pub mod Common
pub mod State
pub mod Scheduler
pub mod Pipe
pub mod Keyboard
pub mod Semaphore
pub mod Input
pub mod Libc
pub mod Console
pub mod Lists
mod Tests
pub mod Memory
pub mod Shell
pub mod Buddy
pub mod Bytes
pub mod Clock
pub mod Syscalls
