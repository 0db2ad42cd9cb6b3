-- ===== src/Nim/State.antt =====
-- nim/Thread.h and the global variables of nim/uthreads.cpp: the threads, the mutex, and what the
-- library asks of the operating system. MAX_THREAD_NUM and STACK_SIZE come from uthreads.h.
use user_level_threads_libra.Prelude.{ℕ, Bool, false, Option, none, List, []}
use user_level_threads_libra.Uthreads.State.{ITimerVal, no_time}

pub data States : Type 0 where
  ready : States
  running : States
  blocked : States
  mutex_blocked : States
  no_state : States

-- Where a thread's `_env` was filled by `sigsetjmp`: in a constructor, or by `saveEnv` in a
-- `switchThread` that the named function called. The second constructor writes the stack pointer and
-- the program counter of a new thread.
pub data Point : Type 0 where
  in_constructor : Point
  at_entry : (sp pc : ℕ) → Point
  in_handler : Point
  in_block : Point
  in_lock : Point
  in_terminate : Point

-- `mask` says whether SIGVTALRM is in the saved signal mask.
pub record Env : Type 0 where
  pub point : Point
  pub mask : Bool

pub record Thread : Type 0 where
  pub id : ℕ
  pub quantums : ℕ
  pub env : Env

pub record MutexBlock : Type 0 where
  pub blocked : Bool
  pub thread_block : Option ℕ

pub data SystemError : Type 0 where
  memory_error thread_library_error timer_library_error : SystemError

pub data LibraryError : Type 0 where
  init_error spawn_error terminate_error block_error block_zero_error : LibraryError
  unblock_error mutex_block_same mutex_already_unblocked : LibraryError
  mutex_blocked_by_someone_else get_quantum_err : LibraryError

pub data Message : Type 0 where
  prefix_system_error : SystemError → Message
  prefix_library_error : LibraryError → Message

-- A `Thread *` is the id of its object, and `objects` are the objects that exist; a null or dangling
-- pointer is an id without an object. A map from ids to pointers is the list of its keys, since each
-- id is mapped to the thread of that id; the keys of `mutexBlocked` stand in the order of iteration.
pub record State : Type 0 where
  pub objects : ℕ → Option Thread
  pub running : ℕ
  pub ready : List ℕ  -- deque<Thread *>
  pub mutex_blocked : List ℕ  -- unordered_map<int, Thread *>
  pub blocked : ℕ → Bool  -- unordered_map<int, Thread *>
  pub all_threads : List ℕ  -- unordered_map<int, Thread *>
  pub timer : ITimerVal
  pub armed : Bool
  pub handled : Bool
  pub set : Bool  -- whether SIGVTALRM is in `set`
  pub quantum_time : ℕ
  pub total_quantum : ℕ
  pub mutex : MutexBlock
  pub masked : Bool
  pub cerr : List Message

-- The process before `uthread_init`.
abbrev pub zeroed : State
zeroed = record {
  objects = λ _. none;
  running = 0;
  ready = [];
  mutex_blocked = [];
  blocked = λ _. false;
  all_threads = [];
  timer = no_time;
  armed = false;
  handled = false;
  set = false;
  quantum_time = 0;
  total_quantum = 0;
  mutex = record { blocked = false; thread_block = none };
  masked = false;
  cerr = [];
}

pub data How : Type 0 where
  sig_setmask sig_block sig_unblock : How

-- What the system and the C++ library answer during one call. `new_stack` is the address of `_stack`
-- in a new thread, `none` if `new` throws; `reorder` is the order that a map has after an insertion.
pub record Os : Type 0 where
  pub sigemptyset_fails : Bool
  pub sigaddset_fails : Bool
  pub sigprocmask_fails : How → Bool
  pub sigaction_fails : Bool
  pub setitimer_fails : ITimerVal → Bool
  pub new_stack : Option ℕ
  pub translate_address : ℕ → ℕ
  pub reorder : List ℕ → List ℕ
