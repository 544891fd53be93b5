-- ===== src/Lib.antt =====
-- A verification library for realtime_tools, the C++ library with which a realtime control loop
-- and ordinary threads of a ROS 2 program exchange data. Paths are from the repository's root.
--
-- Parts, with R = realtime_tools/include/realtime_tools:
--   GoalHandle (R/realtime_server_goal_handle.hpp). The realtime side of an action goal: setAborted,
--     setCanceled, setSucceeded, setFeedback and their try variants store requests that
--     runNonRealtime performs later. `Handle` is the state, `set_aborted` ... `run_non_realtime` are
--     the methods. The action server's own goal handle is the parameter `Server`. GoalHandle/Steps
--     runs a requesting thread and a performing thread against each other.
--   Publisher (R/realtime_publisher.hpp). The publishing thread (`loop_step`) and any number of threads
--     that call stop, can_publish and try_publish (`enter`, `client_step`), composed by `Step`.
--     Publisher/Owner adds the thread that constructs and destroys the object (`owner_step`).
--   Async (R/async_function_handler.hpp). Policy is AsyncSchedulingPolicy, Params is
--     AsyncFunctionHandlerParams (validate, initialize over a parameter interface of a node), Handler
--     is the set-up of AsyncFunctionHandler and the detached trigger. Synchronized is the worker
--     thread with the synchronized policy and all callers, composed by `Step`. Detached is the same
--     with the detached policy: the loop of execute_detached_callback in Detached/Worker, the end of
--     a cycle with its overrun in Detached/Schedule, the callers in Detached/Clients.
--     Start is the function that start_thread runs in the worker's thread, up to its loop, over the
--     parameter `Threads`; it composes the set-up, Helpers and the two loops.
--   Buffer (R/realtime_buffer.hpp). The two objects and their pointers, each method a function, and
--     Buffer/Steps with the realtime thread and any number of others between whom they are shared.
--     Buffer/Memory has the methods, the constructors and the destructor over a heap of objects.
--   Box (R/realtime_thread_safe_box.hpp). Any number of boxes and of threads that set, get and assign
--     them, each access one step (`enter`, `thread_step`, `Step`).
--   Queue (R/lock_free_queue.hpp). LockFreeQueueBase over the parameter `Container`, a class of
--     boost::lockfree, with Queue/Documented for what boost documents of it and Queue/Traits for the
--     type traits and the aliases. Queue/Capacity has the two constructors. Queue/Threads is
--     boost::lockfree::queue shared by threads, where each method of the container is assumed to take
--     effect at once.
--   Mutex (R/mutex.hpp). detail::mutex over the parameter `Pthread`, with Mutex/Documented for what
--     is relied on of robust mutexes and Mutex/Setup for the constructor.
--   Helpers (realtime_tools/src/realtime_helpers.cpp). set_thread_affinity over the parameter
--     `Os`, lock_memory in Helpers/Memory, set_current_thread_name in Helpers/Naming,
--     has_realtime_kernel and the scheduling calls in Helpers/Kernel.
--   Base holds the shared names, Boolean tests, integers, the length of a list and updates of families.
-- The handler sets up its thread by the helpers (Async/Start), and the locks of the boxes are mutexes
-- of Mutex (Box/Locking). Otherwise each part is a device that a program uses by itself.
--
-- Threads: a step relation has one constructor per access to shared data, critical sections are
--   taken and left by steps of their own, and a blocked wait is a place of its own that a
--   notification or a spurious wakeup leaves. The predicate of a wait is tested access by access with
--   the mutex held, and the release of the mutex that blocks the thread is a step after it. Atomics
--   and plain members are read and written one at a time, under sequential consistency; reordering
--   by the hardware is not modelled. Several accesses are one step in these places: the flags in the
--   guard of GoalHandle/Steps, which no other thread sets; the resets of reset_variables, under its
--   mutex; the checks with which a call of the handler, or its detached loop, begins; and what the
--   detached worker stores from one reading of the clock.
-- Integers: `cast_int` wraps to 32 bits; goal states, times and periods are opaque or natural numbers.
-- Doubles: the count of missed cycles is computed in `double` and is the parameter `Doubles` of
--   Async/Detached/Schedule; it is a natural number, and a delay so long that it does not fit an int
--   is left out. Clocks are read by steps, which take what they show as an input; a sleep is one step,
--   and takes any time.
-- Fuel: `Publisher.Shutdown.run_loop` and `run_worker` of Async/Detached/Shutdown and of
--   Async/Synchronized/Shutdown take fuel, the number of steps of a thread; after stop nine are
--   enough, and eight for the synchronized worker; nine are enough from an accepted message or a
--   triggered cycle to its end.
-- Not modelled: log output, the branches for other systems than Linux, the destructor of
--   AsyncFunctionHandler, which is a call of stop_thread, join_async_callback_thread and start_thread
--   called by other threads while a worker runs, deprecated names that only pass a call on, and the
--   tests of the repository.
pub mod Async
pub mod Base
pub mod Box
pub mod Buffer
pub mod GoalHandle
pub mod Helpers
pub mod Mutex
pub mod Publisher
pub mod Queue
