-- ===== src/Lib.antt =====
-- A model of the user-level threads library, and theorems on it.
--
-- The library (uthreads.h, uthreads.cpp) runs up to MAX_THREAD_NUM threads inside one process. A virtual
-- timer sends SIGVTALRM when the quantum of the running thread has expired; the handler puts that thread
-- at the end of the ready queue and jumps to the first thread in it. The functions of uthreads.h create,
-- terminate, block and resume threads and let the running one sleep; each of them blocks SIGVTALRM while
-- it works on the global variables.
--
-- The parts, and where they are:
--   Prelude              names of the libraries, Boolean tests, lists, integers, counts in a list.
--   Effects              code that changes a state, may exit, and may be undefined, with rules for it.
--   Uthreads/State       enum status, class UThread and the global variables (all_threads_, sleepers_,
--                        blocked_tids_, ready_tids_, free_ids_, ...), each a field of `State`.
--   Uthreads/Process     the effects: a function changes the state, may end the process by exit, and may
--                        do what C++ leaves undefined.
--   Uthreads/Signals     start_timer, reset_timer, block_vtAlarm, unblock_vtAlarm, initialize_sigaction.
--   Uthreads/Scheduler   update_sleepers, insert_ready_to_running, saveEnvironment, startRunning,
--                        switch_threads, timer_handler.
--   Uthreads/Api         the constructors of UThread and the functions of uthreads.h.
--   Uthreads/Program     a history of calls and alarms, as the running threads see it.
--   Uthreads/Invariant   the invariant: what a thread's status says of the containers it stands in, and
--                        which saved contexts may be jumped to, by operation.
--   Uthreads/Safety      the invariant of the start and of whole histories.
--   Uthreads/Rotation    an independent description of a switch.
--   Uthreads/Healthy     a system on which valid calls succeed.
--   Uthreads/RoundRobin  what an expired quantum does, and when a ready thread runs.
--   Uthreads/WakeUp      how long a sleeper sleeps.
--   Uthreads/Contract    what the functions of uthreads.h promise.
--   Uthreads/Defects     the signal mask after a switch, alarms at the label jump, and terminated sleepers.
--   Uthreads/Samples     concrete runs.
--   Nim/State            nim/Thread.h and the global variables of nim/uthreads.cpp.
--   Nim/Process          printErrors, systemError, freeAllThread, getId of a thread.
--   Nim/Signals          block, unblock, install_handlers, run_timer.
--   Nim/Scheduler        switchThread, alarmSigHandler, saveEnv, startThread, and where control lands.
--   Nim/Mutex            mutex_unblock_random_thread, uthread_mutex_lock, uthread_mutex_unlock.
--   Nim/Api              getId, findIdeque, freeThread and the other functions of the interface.
--   Nim/Program          a history of calls, alarms and landings.
--   Nim/Invariant        the place of each thread, whose environment may be used, who owns the mutex.
--   Nim/Safety           the invariant of whole histories, and who has the mutex.
--   Nim/Healthy, Turns   a system on which valid calls succeed, and the order of the threads on it.
--   Nim/Contract         the mutex, refused calls, new threads, and a second return of saveEnv.
--   Nim/Samples          concrete runs.
--   Uthreads/Sleepless   the calls, and how they change the sleepers.
--   Uthreads/Contexts    where each thread goes on, for every call and alarm.
--   Clients/Code         the code of a thread that uses the library: calls, shared variables, output, loops.
--   Clients/World        a process: the library's state, the variables, the output, the threads' stacks.
--   Clients/Main         main.cpp: its thread functions and test programs.
--   Clients/Main/Safety  its programs in every schedule.
--   Clients/Separate     tests_to_be_ran_separately.cpp: its helpers, Test1, Test2 and Test3.
--   Clients/Separate/Stress   its Test4 and Test6, with random choices.
--   Clients/Separate/Passes   the runs of Test1 and Test2 in which the timer expires in a waiting loop.
--   Clients/Samples      concrete runs.
--   Agreement            uthreads.cpp and nim/uthreads.cpp beside one another.
--   Demos/Jmp            demos/demo_jmp.c: the switch of two threads, and the order in which they run.
--   Demos/Itimer         demos/demo_itimer.c: a loop and a signal handler that share a variable.
--   Demos/Sigint         demos/demo_singInt_handler.c: a handler of SIGINT.
--
-- The folder nim holds a second implementation of the interface, which has a mutex and no sleep. It is
-- modelled on its own; the two share only the constants of uthreads.h and the timer's value. Agreement
-- compares them by the running thread, the order of the others, who is blocked, the quantums, and the answers
-- to calls; their signal masks may differ.
--
-- How the code is written down:
--   * Thread ids inside the library, counters, quantums and addresses are naturals; the ints that a caller
--     passes may be negative. No counter goes beyond the number of quantums or an argument of a caller, so
--     that overflow of a C int would need 2^31 quantums; it is not modelled.
--   * unordered_map and unordered_set are functions of the id; map, set and deque are lists, the first two
--     in the order of their keys. sleepers_ holds counters of at least 0 between two calls, so that the
--     entry with -1 after the decrement is the entry with 0 before it.
--   * `all_threads_[t]->...` with no thread t goes through a null pointer, and `erase(end())` is not
--     defined either: both are the result `undefined`.
--   * A sigjmp_buf is the place at which sigsetjmp filled it, with the mask that was saved there.
--     siglongjmp executes what follows that place, up to the return of the call: `resume_at`.
--   * The kernel's answers (sigemptyset, sigaddset, sigprocmask, sigaction, setitimer, new) are an
--     argument `Os` of each call, and so is translate_address, inline assembly that the source calls a
--     black box. `IsHealthy` says that the calls with valid arguments succeed.
--   * An alarm comes between two calls. While SIGVTALRM is blocked none is handled; the one that the kernel
--     keeps pending meanwhile is, in the model, an alarm of its own that comes after the call that unblocks.
--     The points inside a call at which SIGVTALRM is open are the label jump, before startRunning, and the end
--     of uthread_terminate of the running thread. An alarm that is handled there, pending or new, stands
--     in Uthreads/Defects only; the theorems on histories and on whole programs are about alarms that are
--     handled between calls.
--   * A thread that was resumed behind uthread_sleep, or that had a call refused, runs with SIGVTALRM blocked
--     until its next call that unblocks. A `quantum` of the scheduling theorems is therefore a call of
--     uthread_get_quantums with the own id, which unblocks, and then an alarm, which looks at the mask.
--   * In nim, a Thread * is the id of its object, and a null or dangling pointer is an id without object.
--     The keys of mutexBlocked stand in the order of iteration, which an insertion changes in a way that
--     is an argument of the call; `IsOrdering` says that it keeps the keys.
--   * saveEnvironment and saveEnv have returned when siglongjmp goes to the buffer that they filled, which
--     C leaves undefined. Control may come out of them a second time, or behind the last call that was made
--     from the same place. In uthreads.cpp both lead to the end of switch_threads. In nim they differ, and
--     `Landing` says which it is.
--   * Every loop is structural recursion: over the sleepers, the queues, the 99 ids of uthread_init and
--     getId, and the rounds of the endless loops of demo_jmp.c. The loop of demo_itimer.c is a step
--     relation, in which the timer may expire between any two statements.
--
--   * A program's threads make one step at a time: a call, a test of a variable, a line of output. The timer
--     may expire between any two steps. What only takes up time (malloc, memcpy) is left out.
--
--   * An expectation of a test that is not met is counted. ASSERT_EXIT makes its call in a child process; the
--     model goes on as that child, and leaves out its parent, which looks at the exit code.
--   * The random numbers and the shuffle of a test are arguments. assert stops the process with SIGABRT.
--
-- Not modelled: tests.cpp and the folder tests, which use the library; timeOperation, which nothing calls;
-- the contents of the stacks, so that `undefined` does not cover a thread that terminates itself and goes
-- on for some lines on the stack that it has deleted; alarms inside a call, but for Uthreads/Defects;
-- googletest, which is another project's code.
pub mod Prelude
pub mod Effects
pub mod Uthreads
pub mod Nim
pub mod Demos
pub mod Clients
pub mod Agreement
