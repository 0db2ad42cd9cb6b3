-- ===== src/Uthreads/State.antt =====
-- The data structures of uthreads.cpp and the constants of uthreads.h: the threads, the global variables,
-- and what the library asks of the operating system.
use user_level_threads_libra.Prelude.{
  ℕ, ◌==◌, if◌then◌else◌, Bool, false, Option, none, List, [], ℤ, pos, negsuc,
}

abbrev pub max_thread_num : ℕ
max_thread_num = 100

abbrev pub stack_size : ℕ
stack_size = 4096

-- `sizeof(address_t)` on x86_64.
abbrev pub address_size : ℕ
address_size = 8

abbrev pub micro_to_sec : ℕ
micro_to_sec = 1_000_000

abbrev pub success : ℤ
success = pos 0

abbrev pub failure : ℤ
failure = negsuc 0

abbrev pub exit_failure : ℤ
exit_failure = pos 1

pub data Status : Type 0 where
  main : Status
  ready : Status
  running : Status
  blocked : Status
  asleep : Status
  terminated : Status

-- Where a `sigjmp_buf` continues: the place at which `sigsetjmp` filled it. A new thread's buffer
-- holds the stack pointer and the program counter that the constructor wrote into it.
pub data Point : Type 0 where
  in_constructor : Point
  at_entry : (sp pc : ℕ) → Point
  in_handler : Point
  in_block : Point
  in_sleep : Point
  in_terminate : Point

-- `mask` says whether SIGVTALRM is in the saved signal mask.
pub record Env : Type 0 where
  pub point : Point
  pub mask : Bool

pub record UThread : Type 0 where
  pub tid : ℕ
  pub status : Status
  pub env : Env
  pub quantums : ℕ  -- num_of_quantums_running

pub record TimeVal : Type 0 where
  pub sec : ℕ
  pub usec : ℕ

pub record ITimerVal : Type 0 where
  pub value : TimeVal
  pub interval : TimeVal

-- The lines that go to std::cerr, by their prefix.
pub data SystemError : Type 0 where
  memory_err timer_err sigs_error : SystemError

pub data LibraryError : Type 0 where
  input_err max_threads_err tid_not_exist block_thread_zero sleep_thread_zero spawn_null :
      LibraryError

pub data Message : Type 0 where
  system_call_err : SystemError → Message
  library_err : LibraryError → Message

-- The global variables, with the parts of the process that the library changes: the armed timer,
-- the handler of SIGVTALRM, whether SIGVTALRM is blocked, and the lines on std::cerr, newest first.
pub record State : Type 0 where
  pub all_threads : ℕ → Option UThread  -- unordered_map<int, UThread *>
  pub sleepers : List (ℕ × ℕ)  -- map<int, int>, in the order of its keys
  pub blocked_tids : ℕ → Bool  -- unordered_set<int>
  pub ready_tids : List ℕ  -- deque<int>
  pub free_ids : List ℕ  -- set<int>, in increasing order
  pub total_quantums : ℕ
  pub running_tid : ℕ
  pub quantum : ℕ
  pub timer : ITimerVal
  pub armed : Bool
  pub handled : Bool
  pub masked : Bool
  pub cerr : List Message

abbrev pub no_time : ITimerVal
no_time = record { value = record { sec = 0; usec = 0 }; interval = record { sec = 0; usec = 0 } }

-- The process before `uthread_init`.
abbrev pub zeroed : State
zeroed = record {
  all_threads = λ _. none;
  sleepers = [];
  blocked_tids = λ _. false;
  ready_tids = [];
  free_ids = [];
  total_quantums = 0;
  running_tid = 0;
  quantum = 0;
  timer = no_time;
  armed = false;
  handled = false;
  masked = false;
  cerr = [];
}

pub data How : Type 0 where
  sig_block sig_unblock : How

-- What the system answers during one call of the library. `new_stack` is the address of `stack_` in
-- the object that `new(std::nothrow)` returns, `none` for a null pointer; `translate_address` is the
-- assembly code of that name, which the source calls a black box.
pub record Os : Type 0 where
  pub sigemptyset_fails : Bool
  pub sigaddset_fails : Bool
  pub sigprocmask_fails : How → Bool
  pub sigaction_fails : Bool
  pub setitimer_fails : ITimerVal → Bool
  pub new_stack : Option ℕ
  pub translate_address : ℕ → ℕ

abbrev pub update {ℓ} : {A : Type ℓ} → (ℕ → A) → ℕ → A → ℕ → A
update f i a j = if i == j then a else f j
