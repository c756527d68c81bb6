-- ===== src/Lib.antt =====
-- The fibers kernel module, which lets the threads of a process run fibers, and its user library.
--
-- A process opens /dev/fibers (fibers/device.c), and its threads call ioctl to become fibers, to make
-- fibers and to switch between them; each fiber has its registers, a stack and 4096 slots of storage
-- (fibers/fiber.c, fibers/include/fiber.h). libfibers/fiberlib.c wraps the calls for programs, and
-- fibers/proc.c shows a fiber's data under /proc.
--
-- Kernel.antt      what the module takes from Linux: the hash of a table's key, find_first_zero_bit,
--                  and whether freed memory can be read
-- Table.antt       the chained hash tables: possible is hash_for_each_possible_rcu, walk the loop of
--                  the get_ functions, delete hash_del_rcu
-- Fiber.antt       the structs of fibers/include/fiber.h; Fiber/Macros.antt its macros
-- Group.antt       fibers/fiber.c: get_group, get_thread, get_fiber, generate_group,
--                  generate_thread, generate_fiber; World is the table of groups with the registers
--                  of every task, Current the calling task with what kmalloc answers it
-- Calls.antt       do_convert_thread_to_fiber, do_create_fiber, do_switch_to_fiber; Calls/Fls.antt
--                  the do_fls_ calls; Calls/Cleanup.antt cleanup_process and cleanup_all
-- Device.antt      fibers/device.c: fibers_ioctl, fibers_open, fibers_release; Device/Reachable.antt
--                  the states that calls by any tasks can reach
-- Device/Registration.antt fibers_register_device and fibers_unregister_device
-- Interleaved.antt fibers/fiber.c again, for the tasks of one process inside the calls: go_on is the
--                  next step of a call, at each access to a lock, a state or a context
-- Locking.antt     what a step that takes or gives back one lock keeps; for Interleaved and Testbed/Ult
-- Fiberlib.antt    libfibers/fiberlib.c
-- Proc.antt        fibers/proc.c: fibers_read; Proc/Entries.antt fibers_readdir and fibers_lookup
-- Probes.antt      fibers/probes.c: the handlers of the two return probes
-- Invariant.antt   what holds of a group between calls; Sound.antt proves that each call keeps it
-- Switch.antt, Convert.antt, Fls.antt, Resume.antt
--                  what each call does on each branch, and what it leaves of the other fibers
-- Testbed.antt     libfibers/testbed/src, a simulation of GSM cells that runs on the library: Run.antt
--                  how a function ends, Double.antt floating point; in Testbed/
-- CalQueue.antt    calqueue.c, the events' calendar: insert, look, direct and process are the parts of
--                  calqueue_put and calqueue_deq, Resizing.antt new_width, resize and the calls; Order.antt
--                  and below, the order of events
-- Numerical.antt   numerical.c: random_word is Random before its result is scaled
-- Channel.antt     channel.c and the state of a cell in model.h
-- Model.antt       model.c: process_event is ProcessEvent, with process_init, process_start and
--                  process_end for its cases; serve and rounds are the loop of main.c's main_loop
-- Ult.antt         ult.c and ult.h: ult_convert, ult_creat and ult_switch_to, in atomic steps; go_on is
--                  context_switch, context_switch_create and context_create_boot; Ult/Storage.antt the
--                  fls_ functions; Ult/Stack.antt get_ult_stack; Ult/Jump.antt
--                  jmp.S and jmp.h
-- Spawn.antt       thread.c: the loop in which a thread takes its number
-- Driver.antt      main.c but for main_loop: the checks of main and the countdown of the fibers;
--                  Driver/Startup.antt how main fills the array of fibers that others read; Tally.antt
--                  counts the threads and fibers that pass a test
-- Examples.antt    a machine and runs on it, on which the theorems are applied
--
-- A function of the source keeps its name. The part of a call inside one group has the suffix _in. A
-- call returns a result with the new state, or oops where it goes through a bad pointer. Integers
-- wrap at the width of their C types: fid_count at 2 ^ 31, unsigned long at 2 ^ 64. There is no bound
-- on the number of processes, threads or steps. Steps assume that a process has fewer than 2 ^ 31
-- fibers when it makes one, since the identifiers wrap there, and that a calling task's pid is not 0.
-- A double and what the C library computes on it are parameters (Testbed/Double.antt). Differences of
-- times, widths and quotients may be negative: calqueue.c then indexes a calendar with a negative
-- number, which is an outcome of its own (negative_index in Testbed/Run.antt), and a run that meets it
-- is not followed further. EndsOrNegative says that a run ends well or ends there, and HasNegative that
-- then some quotient of two doubles has a negative remainder by a number of buckets; for numbers that
-- have none, the run ends well. HasSigns is about the means of Expent: the numbers in the source and
-- products of what is not negative are not negative.
-- The order of events is shown for times that are numbers (IsOrder in Testbed/CalQueue/Order.antt).
-- calqueue_put and resize call each other: `resize n` has fuel for n resizes inside each other, and one
-- is always enough. The search of a year has fuel for one visit to each bucket. qsize and the number of
-- events do not reach 2 ^ 31.
-- The reader of Proc/Windows.antt has fuel for its reads; the length of the text is enough.
--
-- In World and its calls a call is one step. Interleaved.antt interleaves the accesses of the calls to
-- locks, states and contexts, in a memory that is sequentially consistent; there a fiber is known by its
-- number, from a count without bound, and the increment of fid_count and the addition to the table are
-- one step, though hash_add_rcu has no lock around it. The FPU image is one opaque number. The handlers
-- of the probes run one after the other. In Testbed/Ult.antt a thread whose set_jmp returns 0 a second
-- time, since the lower half of the saved rax is 0, takes no further step (At.twice): the program would
-- unlock the ult that it has just come to, and jump away.
--
-- Not modelled: fibers/module.c and the registration of the probes, which only call the kernel and the
-- other parts; devnode; of the testbed the signal trampoline of ult.c, thread.c but for
-- the numbers, the clocks of timer.h and main.c, a failing malloc, and the fields of lp_state_type that
-- stay 0.
pub mod Prelude
pub mod Table
pub mod Kernel
pub mod Fiber
pub mod Group
pub mod Calls
pub mod Invariant
pub mod Switch
pub mod Convert
pub mod Sound
pub mod Fls
pub mod Resume
pub mod Device
pub mod Fiberlib
pub mod Proc
pub mod Probes
pub mod Examples
pub mod Testbed
pub mod Locking
pub mod Interleaved
