-- ===== src/Lib.antt =====
-- VEX, the virtual time execution framework (src/vex): a scheduler that runs the threads of a program
-- under a virtual clock, so that accelerated, delayed and simulated code takes the time it is said to
-- take. The threads keep their own clocks; a manager picks the thread that is earliest, lets it run,
-- and commits its progress to a timeline through a controller.
--
-- Parts, and the files that model them:
--
-- - Common and its children: tests and lemmas on numbers, integers, lists, maps and counts.
-- - Registries (src/vex/registries): Lock and Reentrant are LockRegistryInfo, LockRegistry and their
--   reentrant subclasses of LockRegistry.cpp; Object is ObjectRegistry.cpp. A registry is a map from
--   ids; tryAcquiringLock, releaseAndGetNext, insert, getNext and the others keep their names. Threads
--   is ThreadRegistry.cpp: which threads are announced, known and joined; Threads/Activity asks whether
--   another thread can act before a leap in virtual time.
-- - Threads (src/vex/threads): Code is the enumeration of thread states of Constants.h; Timers (with
--   Waiting and Scaled), Statistics, IoHandler, Scheduling and Aggregate (AggregateStateCounters) are
--   the classes of these names; State is VexThreadState, which owns one of each, with its
--   transitions, and State/Waiting its waiting, parking, interrupts and I/O predictions.
-- - Queue (src/vex/ds): Heap is the contract of the heap functions of <algorithm>, and Heap/Sorted
--   meets it with sorted lists; Priority is AdaptiblePQueue; Thread is ThreadQueue, a heap of thread
--   ids over a function that gives the state behind each id.
-- - Timeline (src/vex/timer/VirtualTimeline.cpp): Virtual and Multicore are the timelines, the
--   disabling one told apart by its array of active cores; Controllers is the interface that the
--   managers call, with Single, Multiple and Logged for its classes.
-- - Manager (src/vex/scheduler/ThreadManager.cpp): how a manager moves threads between running,
--   waiting and the queue, over any controller; Signals how its scheduler suspends a thread by a
--   signal that the thread answers; Leaps when virtual time may leap to a thread of the queue; Rounds
--   one round of the scheduler, suspendRunningResumeNext with continueThread and what they call, over
--   the methods that a subclass may override; Strict and Loose are the subclasses
--   StrictParallelThreadManager and LooseParallelThreadManager.
-- - Simulator (src/cinqs): Lists is tools/List.h and OrderedList.cpp, linked nodes in memory with the
--   iterator that changes them; Customers, Queues and Nodes are the classes of network with these names,
--   from Queue with its disciplines to ResourcePool, QueueingNode and the preemptive nodes; Diary is
--   the ordered list of events and the loop Sim::go.
-- - Profiler (src/vex/profiler): Measures is MethodCallInfo, PerformanceMeasure and the invalidation
--   policies; Log is MethodLog with logMethodEntry and logMethodExit of ThreadState.cpp; Merging is
--   createMeasuresForThread of EventLogger.cpp.
--
-- The parts meet in the thread state: the queue orders threads by the timestamp of their timers, the
-- controllers move timers and timelines together, an interrupt takes the thread from the object
-- registry. Each part is modelled with the state that it keeps and one function for each operation; a
-- method that changes an object returns the new one. An operation that the source guards by a mutex is
-- one step; where a method makes several such calls, and others may act between them, the step after
-- the first call is a function of its own. A condition variable's wait, a failed assertion and a call that never returns are `none`.
--
-- Numbers: times are exact integers of nanoseconds, where the source has `long long`, but for the I/O
-- predictions, whose counter and products wrap round as the source's `unsigned long`; ids are natural
-- numbers, and NULL is `none`. Products with `float` factors are the parameter FloatOps, since their
-- rounding is the hardware's. Clocks are arguments. The one function that recurses without a
-- structural argument, recursivelyUpdatePendingIoRequests, has fuel: the length of the queue and one
-- more, as each call takes a thread from the heap. The recursion of continueThread may go on as long
-- as other managers change the shared queue between its accesses: its argument is a list of what they
-- do before each of them, and three accesses in a row that nobody disturbs are enough.
-- The loops over linked lists have the number of the nodes ever allocated; Sim::go may run for ever,
-- and its fuel bounds how far it is followed.
--
-- Memory: a linked list's nodes stand at addresses, of which `new` gives the next one; an address is
-- not used twice. A customer in the simulator is its id, as a thread is. Simulated times are `double`;
-- their type, order and arithmetic are parameters.
--
-- Not modelled: the timing of the controller's wait and the waits of the program's own threads, the
-- passive manager, the registry of managers, I/O prediction by regression, the profiler's
-- stack traces, the performance models and their XML parser, the simulator's samplers, measures and routing, output, the
-- system's clocks, the stack traces, the JVM agent and the Java side.
pub mod Common
pub mod Registries
pub mod Threads
pub mod Timeline
pub mod Queue
pub mod Manager
pub mod Simulator
pub mod Profiler
