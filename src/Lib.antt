-- ===== src/Lib.antt =====
-- RTX, a message-passing real-time kernel for the MCF5307 ColdFire board (coldfire/).
--
-- Processes run one at a time, chosen by priority and then in order of arrival. They share nothing
-- but envelopes: a process requests an envelope from a pool, sends it to the mailbox of another one,
-- and blocks on its own mailbox, or on the pool while this is empty. Interrupts run i-processes, which
-- never block. The kernel keeps the last sixteen messages sent and received for the debugger.
--
-- Files, and the code that each is about:
--   Base: lists, Boolean tests, signed integers, and 32-bit words that are compared as signed.
--   Rtx: the codes and the process states of coldfire/inc/rtx.h.
--   Links: memory that holds linked queues, by addresses, 0 for NULL: the `next` field of a node, the
--     `head` and `tail` fields of a queue. Links/Contents says which list of nodes each queue holds
--     and that no node stands in two queues; this is the abstract view of both kinds of queue.
--   ProcQueue: coldfire/kern/src/proc_queue.c.  MsgEnvQueue: coldfire/kern/src/msg_env_queue.c.
--   ProcPq: coldfire/kern/src/proc_pq.c, an array of process queues, one for each priority.
--   Mem: coldfire/kern/src/k_mem.c.  Process: `pcb_t` of coldfire/kern/inc/k_structs.h.
--   Message: `MsgEnv` of coldfire/inc/rtx.h and the 32-bit words of its message.
--   Trace: the trace rings of coldfire/kern/src/k_ipc.c.
--   Kernel: the global variables as one record. Kernel/Table is the process table of
--     coldfire/kern/src/k_process.c, Kernel/Switch is coldfire/kern/src/k_scheduler.c,
--     Kernel/Primitives and Kernel/Services are coldfire/kern/src/k_primitives.c.
--     Kernel/Sched states the scheduler's view: every queue of processes is well formed, and each
--     process in it has the state and the priority that its queue stands for.
--   Kernel/Timer: timeout_queue.c, timer_i_process.c, k_clock.c and isr_handler.c, all in
--     coldfire/kern/src.
--   Kernel/Uart: coldfire/kern/src/uart_i_process.c and the keys of coldfire/kern/src/k_hotkeys.c.
--   Kernel/Boot: coldfire/kern/src/k_init.c, `init_ipc` of coldfire/kern/src/k_ipc.c and
--     `init_processes` of coldfire/kern/src/k_process.c.
--     Kernel/Boot/Begin is about the processes after `k_init`, with its parts in the modules beside it.
--   Kernel/Live: the processes between two traps, and the steps that the kernel makes.
--   Main: coldfire/kern/src/main.c, the table of the nine processes and the system from its start.
--   Utils: the string functions of coldfire/util/src/utils.c, by the names of the code, `find_char` for
--     `_findChar`, `str_convert` for `strConvert`. Utils/Printf is `rtx_sprintf`, Utils/Token `rtx_strtok`.
--   User: what a process sees of the kernel. User/Console is `print_ack` of coldfire/util/src/utils.c,
--     User/Wallclock is coldfire/user/src/wallclock.c (`set_wall_clock` for `_setWallClock`), User/Abc
--     is a.c, b.c and c.c of coldfire/user/src, User/Pong is coldfire/user/src/pong.c, and User/Cci is
--     coldfire/kern/src/cci.c and coldfire/kern/src/cci_utils.c.
--   Keyboard: the interrupts, the interpreter and the wall clock together, from a line that is typed
--     to the time that is set.
--   Unix: unix/kern/src/k_atomic.c and unix/kern/src/k_signal_handler.c, with the code of an i-process
--     as a parameter. Signal masks are as POSIX has them: the contexts of `setjmp` do not keep them.
--   Unix/Crt: unix/kern/src/crt_i_process.c and unix/crt/src/main.c, which share memory, and the signal of
--     `send_console_chars` of unix/kern/src/k_primitives.c: each test of the flag, each character written or
--     printed, each write of the flag and each signal is a step, and the steps come in any order. Each
--     process sees the writes of the other in their order.
--   Unix/Keyboard: unix/kern/src/kb_i_process.c and unix/keyboard/src/main.c, in the same way.
--   Tests: the theorems at concrete systems.
--
-- Functions keep their names, without the prefix of their module (`proc_queue_enqueue` is
-- `ProcQueue.enqueue`). Each takes the memory it works on and returns it after the call. A primitive
-- that gives up the processor returns a `Reply`, which says how the call comes back: at once, once
-- the process runs again, or with the test of its loop made again.
--
-- A process is modelled apart from the kernel: it has a list of the envelopes that it will receive,
-- makes calls, which are listed, and gets answers to them that depend on the calls so far. It waits for
-- ever where it receives and the list is at its end. Its loop runs for a given number of rounds. What
-- the kernel promises about those calls is in the theorems on its primitives.
--
-- Loops over a number of rounds known in advance recurse on the rounds left. The walks along links
-- and around a ring recurse on fuel, and their theorems say how much is enough: more than the
-- length of the queue, or seventeen steps for a ring of sixteen. The timer process walks its queue once
-- for each envelope received, which grows it: its fuel is twice the mailbox plus the queue. The functions
-- on strings get fuel for a message of 1024 characters in the processes, and for the length of the
-- format and ten digits in `rtx_sprintf`.
--
-- Integers of 32 bits in a message are written as they lie in memory; the counters of envelopes
-- and the pids are unbounded. `HEAP_START`, an address of the linker, is a parameter.
--
-- Not modelled: registers, stacks and the assembly around them, the configuration of the devices, the
-- output of the debugger, and the rest of the port to Unix (unix/), whose primitives are near copies of
-- the others. The addresses of the code of the processes are parameters. A write behind the end of the
-- console's buffer is recorded (`outside`); what it would destroy there is not.
pub mod Base
pub mod Rtx
pub mod Links
pub mod Mem
pub mod Process
pub mod ProcPq
pub mod Message
pub mod Trace
pub mod ProcQueue
pub mod Kernel
pub mod MsgEnvQueue
pub mod Utils
pub mod Tests
pub mod Unix
pub mod User
pub mod Main
pub mod Keyboard
