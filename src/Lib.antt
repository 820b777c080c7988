-- ===== src/Lib.antt =====
-- The threads of a Pintos kernel: the priority scheduler with donation, the multi-level feedback
-- queues, semaphores, locks, condition variables, the timer that threads sleep by, and the start of
-- the kernel with its command line and page tables.
--
-- The parts and how they interact. src/threads/thread.c keeps the threads, the list of ready threads
-- of the priority scheduler, or 64 queues for the feedback scheduler (`-mlfqs`), and switches from
-- one thread to another. src/threads/synch.c blocks a thread on the waiter list of a semaphore and
-- makes it ready again; a lock is a semaphore with a holder, and a waiting thread donates its
-- priority to the holder. src/devices/timer.c keeps a list of sleeping threads, and its interrupt
-- wakes them, counts the use of the CPU and recomputes the priorities of the feedback scheduler.
-- src/threads/init.c reads the command line, starts all of these and runs the tasks asked for.
--
-- Which file models what (a function has the name that it has in the source):
--   Kernel (State, Stores, Monad): the structures of src/threads/thread.h and src/threads/synch.h by
--     their addresses, the static variables, and kernel code as a state transformer with the outcomes
--     `ok`, `panic` (an ASSERT fails) and `undefined` (C or the list library does not define it).
--   Platform: lib/kernel/list.c, threads/interrupt.c and threads/switch.h, which the code calls, as
--     an interface with the laws that their comments promise, and the addresses of `switch_entry` and
--     `kernel_thread`; Platform.Reference meets the laws.
--   FixedPoint: src/threads/fixed_point.h. Current, Mlfqs, Scheduler, Donation, Preemption, Creation:
--     the parts of src/threads/thread.c. Elem: the `elem` member of a thread and what adding it to a
--     list asks for. Synch: semaphores, SelfTest: their self-test, Locks: locks and condition
--     variables of src/threads/synch.c. Timer: src/devices/timer.c; Delay: its waits for a time in
--     seconds; Calibrate: its calibration of the busy wait.
--   CommandLine: the words and the options of the command line in src/threads/init.c, its child Tasks
--     the actions, Main: `main`, `bss_init` and the block devices; all of them for every build, with
--     USERPROG, VM and FILESYS defined or not. Boot: what `main` does, as events, among them
--     `bss_init`, `paging_init` and the functions that it calls in other files; devices/block.c is a
--     parameter.
--   Paging: the page tables that `paging_init` of src/threads/init.c makes, over what it uses of
--     threads/pte.h, threads/vaddr.h and threads/palloc.c.
--   Call, Machine: a C function that may switch threads in its middle is cut there. What follows the
--     switch is a call that stays on the stack of the thread: `sema_down_loop`, `lock_taken`,
--     `lock_granted`, `lock_released`, `tid_taken`, `tid_given` and `timer_wakeup_loop` are such rests
--     of functions, and the functions that may switch return the calls that are left. Machine has the
--     stacks, the CPU and the timer interrupts as a step relation; its children follow the status of
--     the threads through every function.
--   Scheduler.Abstract: the scheduler without the order of the ready list, a specification that
--     Scheduler.Refinement meets; Base.Bag has the lists without their order.
--   The children of a part hold its proofs. Tests has a small kernel and each theorem at an input.
--
-- Integers. An `int` or `int64_t` is an integer of Base.Int; sums and products are reduced by wrap32
-- and wrap64, as the compiler for this machine does, where C leaves an overflow undefined.
--
-- Fuel. The loops that empty a list take a round for each element that the list holds when they
-- start. `donate_priority` takes a bound on its nested calls. The loop of `timer_calibrate` that
-- doubles ends after at most 22 turns, since loops_per_tick has 32 bits, and the loop over lower
-- bits after 10. `run_actions` takes a turn for each word at most.
--
-- Not modelled: output, assembler, and the set-up of the timer chip. The calls of
-- userprog/process.c that src/threads/thread.c has within #ifdef USERPROG, `process_exit` in
-- `thread_exit` and `process_activate` in `thread_schedule_tail`, are left out, as in the threads
-- project, which builds without it; `pagedir` is a member of every thread, null where process.c has
-- not set it. The lists are sequences of addresses; whether a link is in
-- use is kept where the code puts an element on a second list, not for `sleep_elem` and `allelem`.
pub mod Base
pub mod FixedPoint
pub mod Platform
pub mod Kernel
pub mod Elem
pub mod Current
pub mod Mlfqs
pub mod Scheduler
pub mod SelfTest
pub mod Donation
pub mod Boot
pub mod Call
pub mod Paging
pub mod Preemption
pub mod Synch
pub mod Locks
pub mod Timer
pub mod CommandLine
pub mod Creation
pub mod Delay
pub mod Calibrate
pub mod Machine
pub mod Main
mod Tests
