-- ===== src/Lib.antt =====
-- minSMT: a runtime that makes the synchronisation of pthread programs deterministic. A program's
-- calls of pthread operations are redirected to wrappers, and a wrapper runs only while its thread
-- holds the turn; a round robin scheduler passes the turn from thread to thread.
--
-- The parts, and the files that model them:
--
--   RunQueue     include/tern/runtime/run-queue.h, `class run_queue`: the intrusive doubly linked
--                list on which the runnable threads stand. The heap is a function from addresses to
--                elements, each operation reads and writes the pointers as the source does, and an
--                access through NULL or to a deleted element is the fault `bad_pointer`.
--                RunQueue/Chain says what a queue stands for.
--   TidMap       include/tern/runtime/scheduler.h, `struct TidMap`: thread ids and role ids.
--   NonDetSet    include/tern/runtime/non-det-thread-set.h: the threads in regions that are not
--                deterministic.
--   Sched        include/tern/runtime/record-scheduler.h and lib/runtime/record-scheduler.cpp,
--                `struct RRScheduler`, with the members that it has of `Scheduler` and `Serializer`
--                in include/tern/runtime/scheduler.h and lib/runtime/scheduler.cpp. Sched/Defs has
--                the state and the wait slots, Sched/Queues the operations of the queues on it,
--                Sched/Wakeups the turn count, timeouts and wake-ups, Sched/Signals `signal`,
--                Sched/Next the choice of the next thread, Sched/Turn `getTurn`, `putTurn`, `wait`,
--                `block` and what the idle thread calls, Sched/Setup constructor, new threads, fork.
--                Sched/Selfcheck has `selfcheck`, and Sched/Orderly the invariant behind it.
--                Sched/Serial/Reach has the runs: which thread calls what in which order is open,
--                but for the turn.
--   Runtime      include/tern/runtime/record-runtime.h and lib/runtime/record-runtime.cpp,
--                `RecorderRT<RRScheduler>`: Runtime/Finish has the start and end that all wrappers
--                share, Runtime/Time the conversion of time to turns, and Runtime/Mutex, Sem,
--                RwLock, Barrier, Cond, Thread, Region, Blocking, Turns, Fork and Task the
--                wrappers. Locks, Sems, Passing, Sharing, Release, CondCodes, Outside and Child
--                have theorems on them.
--   Hooks        lib/common/space.cpp, lib/runtime/hooks.cpp, lib/runtime/helper.cpp and dync_hook: the
--                way from a call of the program to the runtime. Hooks/Space has the two spaces,
--                Hooks/Entry and Plans the entry points, Hooks/Interpose the functions that stand
--                in for those of the C library and those for annotations, Hooks/Process the start
--                and the end of a process. The runtime's methods are parameters there: a method
--                runs to its end, with what other threads do meanwhile. Crossing, Marks and
--                Lifetime have theorems on them.
--   Plain        lib/runtime/runtime.cpp: the plain calls with which the wrappers reach the C library,
--                whose functions are parameters. Plain/Receive has the loop of `__recv`, and
--                Plain/Errno follows errno from the program to the C library and back.
--   Log          lib/runtime/record-log.cpp, `TxtLogger`: which operations the runtime logs with which
--                arguments, and the line that the text log makes of each; Log/Records has the
--                records of a call in the binary log.
--   Prelude      what the parts share: tests, lists, integers, results, and postconditions of code
--                that can fail. Examples applies each property at a concrete state.
--
-- How the code is read. All state of the scheduler is changed only by the thread with the turn, so
-- an operation is a function from states to results. A wrapper that gives up the turn in the middle
-- is a function for each part between two turns; the second part is named after the first, with
-- `_continue`. An `assert` that fails is the fault `assertion` unless the option `ndebug` says that
-- the build leaves assertions out; a model that returns in a build with assertions has failed none.
-- `exit` is the fault `exited`, and a division by 0 `div_by_zero`. The variables of a thread are a map from threads, and the thread
-- that calls is the argument `me`.
--
-- The scheduler's queues are lists of threads, as RunQueue/Basics proves that the linked lists are;
-- the two queues share their elements, so the status and the yield mark of a thread are kept once.
-- `in` is a membership test, which is what the source computes for a thread that does not stand in
-- the other queue.
--
-- Numbers and fuel. A turn count is an `unsigned` and wraps at 2 ^ 32, the counts of a queue are a
-- `size_t` and wrap at 2 ^ 64, and an interval in nanoseconds is converted to 64 bits. An `int` of
-- the source that counts is an integer. The loop of `nextRunnable` gets as fuel twice the length of
-- the run queue, the lengths of the two other queues, and 2: a round takes a blocked head away,
-- passes a thread of another role, or is the last. The walk of `insert_yield` gets the number of
-- elements and 1. The loop of `__recv` gets the length of the buffer, the ten tries, and 1.
--
-- Not modelled: the writing of logs to files, statistics and the measuring of time, which change no
-- state that the scheduler reads; the functions of the C library, whose effect on a mutex, a lock
-- or a semaphore is taken from POSIX where a wrapper needs it, but for `pthread_mutex_unlock`, which
-- depends on the type of the mutex and is a parameter; `RecordSerializer`, which the build
-- does not install; the lookup of functions with dlsym and the registration with other tools. The
-- order in which an `unordered_set` is gone through is the order of insertion.
pub mod Prelude
pub mod RunQueue
pub mod TidMap
pub mod NonDetSet
pub mod Sched
pub mod Hooks
pub mod Plain
pub mod Log
pub mod Runtime
pub mod Examples
