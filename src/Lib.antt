-- ===== src/Lib.antt =====
-- The kernel of tinyos: a small operating system on a simulated machine (bios.c). This library models
-- its tables, the system calls on processes and on streams, its scheduler, its synchronisation, its
-- serial driver, and of the machine the interrupts, the halting of cores and the io devices.
--
-- The parts of the program
--   Processes (kernel_proc.c, kernel_proc.h). The process table PT, its free list linked through the
--   `parent` fields, and the system calls Exec, WaitChild, Exit, GetPid and GetPPid. Exec and Exit call
--   the streams to count the references of the file tables, and the scheduler to start and end a
--   thread.
--   Streams (kernel_streams.c, kernel_streams.h). The file control blocks FT with their reference
--   counts and free list; Read, Write, Close, Dup2, OpenNull and OpenTerminal. Opening asks the
--   device table (kernel_dev.c) for a device; Read and Write run a method of its driver.
--   Scheduler (kernel_sched.c, kernel_sched.h). The queue SCHED, the sorted TIMEOUT_LIST, wakeup,
--   sleep_releasing, yield and gain, on several cores.
--   Symposium (symposium.c, symposium.h). The dining philosophers, a program on the system calls: a
--   monitor that the philosophers' threads enter one at a time.
--   Argument vectors (util.h). Packing the strings of a program's arguments into the buffer that Exec
--   copies, and unpacking them in the new process.
--   Resource lists (util.h). Doubly linked rings of nodes, spliced at two nodes. All lists of the kernel
--   are such rings.
--   Concurrency control (kernel_cc.c). Condition variables, whose waiters form a ring, and the kernel
--   lock, a semaphore that every system call takes. Preemption is on when the interrupts of the core
--   are (bios.c).
--   Peripherals (bios.c). The io devices of the serial ports, and the rounds of the PIC daemon, which
--   makes interrupts of the timers and of the devices that have become ready.
--   Devices (kernel_dev.c). The null device, and the serial driver, which sleeps on a condition variable
--   until the machine has a byte.
--   Exceptions (util.c, util.h). A stack of frames with handlers, unwound by raise_exception.
--   Boot (kernel_init.c). It fills the tables and starts processes 0 and 1.
--   Execute (tinyoslib.c). It packs a program and its strings into the buffer for Exec, and
--   exec_wrapper, the task of the new process, unpacks them and calls the program.
--   Shell (tinyos_shell.c). Programs, and the splitting of a command line at its pipes.
--
-- The files
--   Prelude          names of the libraries, tests on numbers, lists of object numbers, tables
--   Kernel           PCB, FCB, the device types, and the record of the kernel's tables
--   Streams          the operations of kernel_streams.c; device_open and the open and close methods of
--                    kernel_dev.c
--   Streams/Counts   how many references to a block the file tables hold
--   Streams/Counted  the invariant of reference counting, and the basic steps
--   Streams/Calls    Close, Read, Write; Streams/Calls/Dup2: Dup2
--   Streams/Reserve  FCB_reserve, with its loops in Find and Alloc
--   Streams/Open     open_stream;  Streams/Init: initialize_files
--   Proc             the operations of kernel_proc.c, without Exit; Proc/Exit: sys_Exit
--   Proc/Table       the free list and process_count
--   Proc/Files       the file tables in Exec (Files/Exec, Files/Shares)
--                    and Exit (Files/Exit)
--   Proc/Tree        the tree of processes; Tree/Exec: Exec
--   Proc/Wait        WaitChild; Proc/Answers: for which child it answers
--   Proc/Orphans     Exit and the tree; Steps: its steps, Final: the table it leaves,
--                    Childless: of a process without children
--   Proc/Drain       the loop of Exit in which process 1 waits for its children
--   Proc/Steady      what Exec and WaitChild leave of other processes; Proc/Died: what Exit leaves;
--                    Proc/Reported: Exit and WaitChild together
--   Proc/Blank       the table after the loops of initialize_processes
--   Streams/Calm     what the calls on streams leave of the processes
--   Runs             runs of system calls by all processes; Safe: the invariant and the calls on streams,
--                    Processes: Exec, Exit and WaitChild, Init: the Exit of process 1, Reach: the runs; Boot/Start: from the boot on
--   Sched            kernel_sched.c; Sched/Timeouts: TIMEOUT_LIST; Sched/Woken: waking
--   Sched/Steps      the scheduler on several cores, as a step relation; Sched/Sound: its invariant, with
--                    a file for each kind of step; Sched/Cores: its runs; Sched/Fair: the queue in a run
--   Symposium        the monitor's operations and steps; Safe: the invariant, Reach: the runs
--   Args             argvlen, argvpack, argscount, argvunpack; Packed: the buffer, RoundTrip: there and back
--   Rings            the lists of util.h, as a store of nodes; Splice: rings, Push and Lists: the operations,
--                    Walks: the loops that read, Reverse and Select: the loops that write
--   Cc               condition variables; Waiters: the ring of waiters, Signal, Broadcast, Others:
--                    the other queues
--   KernelLock       the kernel lock; Counts: threads at a place, Exclusion: its runs
--   Devices          kernel_dev.c, the drivers; Serial: what serial_read transfers
--   Peripherals      io devices and the PIC daemon; Rounds: what a round does, Promise: what
--                    bios.h says of a transfer that fails
--   Cores            interrupts and halting of cores; Halting: its properties
--   Exceptions       raising and unwinding; Unwind: which handlers run, Caught: who handles
--   Execute          Execute and exec_wrapper; Copy: copies of memory, Arguments: what the program gets
--   Boot             what core 0 does before the scheduler (kernel_init.c); Sequence: it succeeds
--   Proc/Task        the task and the arguments of a new process
--   Shell            hanoi, WordCount, process_line's first loop; Tower, Words, Pipeline
--   Tests            runs on small inputs
--
-- How state and operations correspond
--   Objects are named by their index in their table: a PCB by its pid, an FCB by its index in FT. A
--   null pointer is `none`. An intrusive list (util.h) is the list of the objects on it, first the one
--   that rlist_pop_front returns; Rings has the pointers, and shows what its operations do to that list.
--   Cc uses the pointers too. An operation takes the state and returns the new one, with its result
--   if it has one. FCB_reserve is fcb_reserve, sys_Dup2 is sys_dup2, and so on. All system calls run
--   with the kernel locked from their start to their end or to a sleep, so each is one step. A call
--   that sleeps is modelled as the part that runs before the sleep and the loop that runs at each
--   wake-up (`Waited` is what either comes to); Read and Write take as an argument the driver's method
--   together with all that others do while it sleeps. Calls of the scheduler and of the condition
--   variables from kernel_proc.c are recorded, in order, in the field `calls`.
--   A run of the kernel is any sequence of system calls of processes that live, with Read and Write as two
--   steps each; its state is the kernel with the references that calls in progress hold.
--   A philosopher's thread runs one part of its code, from Mutex_Lock to Mutex_Unlock, at a step; the
--   test of the wait loop is a step of its own, which any wake-up may lead to, and `Place` says which
--   part comes next. A run is any sequence of such steps.
--   The scheduler on several cores is a step relation: a step is what one core does while it holds
--   `sched_spinlock`, and any core may take the next one. `Stage` says where a core is, and `System` is
--   the state of the scheduler with the stage of each core. yield is two steps, up to the context switch
--   and gain; the start of run_scheduler and the end of idle_thread, which take no lock, are steps of their
--   own; other cores may take steps between them, and between the sleep of a thread and its yield.
--   A thread is spawned in memory that no core uses; only normal threads sleep or exit.
--   The kernel lock is a step relation on the places of the threads: each step runs with `kernel_mutex`
--   held. A condition variable runs with its `waitset_lock` held from its start to its end or to the
--   sleep. A transfer of the serial driver takes the answers of the machine as a list; an interrupt
--   handler is an argument, a function on its core. A longjmp to a frame is the start of its unwinding;
--   whether a handler raises is an argument.
--
-- Bounds and fuel
--   The tables have the sizes of the source, 65536 processes and blocks and 16 file ids. `refcount`,
--   `process_count` and `active_threads` are of 32 bits and wrap around; times are of 64 bits. The loops
--   over file ids and over free entries count the rounds that the source's loop has left, which is the
--   distance to its bound; the other loops are recursions on the list that they empty.
--   The loop of Exit over WaitChild has fuel, and more than the number of children is enough.
--   The loops over a ring have fuel, and more than the number of nodes is enough; so have the loops of
--   cv_signal and Cond_Broadcast, and more than the number of waiters is enough. rlist_len counts in 32
--   bits. raise_exception has fuel for its jumps, and more than the number of frames and handlers is
--   enough.
--   The loop of argvunpack that looks for the end of a string has fuel, and the length of the buffer is
--   enough. `max_files` is
--   the number of blocks, and an invariant on the counts needs that the references fit 32 bits: a process
--   has 16 entries, and `held`, the references in local variables of calls in progress, is bounded by
--   `Ready`.
--
-- The invariants
--   `Exact held k`: the free blocks are distinct; a block is free exactly if nothing refers to it; and
--   else its count is the number of references from file tables and from `held`.
--   `Table n fl k`: `fl` is the free list, without repetition, and holds just the free processes among
--   the first `n`; `process_count` counts the others.
--   `Tree k` and `Forest`: c is on children_list of p exactly if p is its parent, and on exited_list of
--   p exactly if it is a zombie besides; parents live, and process 1 has none.
--   `WellFormed n s` of a run: all of these, that processes that do not live have no files, and that
--   process 1 is not free.
--   `Timeouts s`: TIMEOUT_LIST is sorted by time and holds, once, each thread with a time of wake-up.
--   `Sound k owner` of the scheduler: `owner` tells which core has a thread, the queue holds the other
--   normal threads that are ready, a context is saved exactly if no core has the thread, and the stage
--   of a core fits the state of its threads.
--   `Ring m a xs`: from `a` the nodes `xs` follow and come back to `a`, linked both ways, each once.
--   `Waits s cv ws`: the waiters on `cv` are `ws`, in a ring that `waitset` enters at the first.
--   `Good k` of the kernel lock: the semaphore and the threads in the kernel make one.
--   `Listed m`: the list of the halted cores holds each of them once.
--
-- Not modelled
--   Of bios.c, what simulates hardware by POSIX threads, signals, timers and files: the opening of
--   terminals, timers, contexts, the start and the end of the threads. Of kernel_cc.c, the spinning
--   of Mutex_Lock. The preemption flag around the serial driver, vm_boot, the system call wrappers,
--   the stubs for threads, sockets and pipes, ParseProcInfo and the streams of tinyoslib.c, the
--   rest of the shell, the examples and the tests. sys_exit starts after the loop in which process
--   1 waits for its children, which is `drain`; a step of a run puts the two together. A run has no
--   Exit of a process with children after the Exit of process 1, which comes only when process 1
--   has no child left. Of symposium.c, what burns time or prints is left out, and the processes
--   that start the philosophers. The context switch itself, and the mutexes and preemption flags of
--   the scheduler, are outside its model. A failing malloc is not modelled.
mod Prelude
pub mod Kernel
pub mod Streams
pub mod Proc
pub mod Sched
pub mod Symposium
pub mod Args
pub mod Boot
pub mod Cc
pub mod Cores
pub mod Devices
pub mod Exceptions
pub mod Execute
pub mod KernelLock
pub mod Peripherals
pub mod Rings
pub mod Runs
pub mod Shell
mod Tests
