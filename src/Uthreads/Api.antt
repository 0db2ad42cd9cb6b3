-- ===== src/Uthreads/Api.antt =====
-- uthreads.cpp, the constructors of UThread and the functions of uthreads.h, in the order of the source.
-- A thread id, a quantum and a number of quantums are C ints, so they may be negative.
use user_level_threads_libra.Prelude.{
  ℕ, zero, suc, ◌+◌, ◌-◌, ◌==◌, ltb, true, false, if◌then◌else◌, Option, none, some, List, [], ◌∷◌,
  ℤ, pos, negsuc, erase_found, insert_sorted,
}
use user_level_threads_libra.Uthreads.State.{
  Os, State, UThread, Status, update, success, failure, exit_failure, max_thread_num, stack_size,
  address_size, main, ready, running, blocked, asleep, terminated, in_constructor, at_entry,
  in_block, in_sleep, in_terminate, system_call_err, memory_err, input_err, max_threads_err,
  tid_not_exist, block_thread_zero, sleep_thread_zero, spawn_null,
}
use user_level_threads_libra.Uthreads.Process.{
  M, ok, exited, undefined, ◌>>=◌, ◌>>◌, return, get, modify, fail_with, set_status, push_ready,
}
use user_level_threads_libra.Uthreads.Signals.{
  start_timer, reset_timer, block_vt_alarm, unblock_vt_alarm, initialize_sigaction,
}
use user_level_threads_libra.Uthreads.Scheduler.{Control, returns, switch_threads}

-- The two constructors of `UThread`. `sigsetjmp` saves the point, `sigemptyset` clears the mask, and
-- the second constructor writes the translated stack pointer and program counter.
unfoldable pub main_thread : UThread
main_thread = record {
  tid = 0;
  status = main;
  env = record { point = in_constructor; mask = false };
  quantums = 1;
}

unfoldable pub new_thread : Os → ℕ → ℕ → ℕ → UThread
new_thread os tid entry_point stack = record {
  tid = tid;
  status = ready;
  env =
      let sp = stack + stack_size - address_size in
      record {
        point = at_entry (os.translate_address sp) (os.translate_address entry_point);
        mask = false;
      };
  quantums = 0;
}

-- `delete` for each thread. It is called right before the process exits.
unfoldable pub cleanup : State → State
cleanup s = record s { all_threads = λ _. none }

unfoldable pub die_of_memory : {A : Type 0} → M A
die_of_memory s = exited exit_failure (record s { cerr = system_call_err memory_err ∷ s.cerr })

unfoldable pub initialize_main_thread : Os → M (Unit {0})
unfolding die_of_memory main_thread
initialize_main_thread os s = elim os.new_stack [
  | none ↦ die_of_memory s
  | some _ ↦ ok tt (record s { all_threads = update s.all_threads 0 (some main_thread) })
]

-- `for (int i = …; i < MAX_THREAD_NUM; ++i) free_ids_.insert(i)`, by the rounds that are left.
unfoldable pub insert_ids : ℕ → ℕ → List ℕ → List ℕ
insert_ids zero i ids = ids
insert_ids (suc n) i ids = insert_ids n (i + 1) (insert_sorted i ids)

-- `std::unordered_map::emplace`: nothing happens to a key that is there.
unfoldable pub emplace : ℕ → UThread → (ℕ → Option UThread) → ℕ → Option UThread
emplace t u m = elim (m t) [ none ↦ update m t (some u) | some _ ↦ m ]

-- `std::map<int, int>::emplace`
unfoldable pub emplace_sorted : ℕ → ℕ → List (ℕ × ℕ) → List (ℕ × ℕ)
emplace_sorted k v [] = (k, v) ∷ []
emplace_sorted k v ((j, w) ∷ m) =
    let rest = (j, w) ∷ emplace_sorted k v m in
    if ltb k j then (k, v) ∷ (j, w) ∷ m else (if k == j then (j, w) ∷ m else rest)

-- The map of threads as it is asked for an int.
abbrev pub thread_of : ℤ → (ℕ → Option UThread) → Option UThread
thread_of (negsuc _) m = none
thread_of (pos t) m = m t

abbrev pub answer : ℤ → M Control
answer n = return (returns n)

module _ (os : Os) where
  unfoldable pub init_with : ℕ → M Control
  unfolding initialize_main_thread initialize_sigaction start_timer
  init_with quantum_usecs = do
    initialize_main_thread os
    modify (λ s. record s {
      total_quantums = 1;
      free_ids = insert_ids (max_thread_num - 1) 1 s.free_ids;
      quantum = quantum_usecs;
    })
    initialize_sigaction os
    start_timer os
    answer success

  -- The test `quantum_usecs <= 0` takes the first two clauses.
  unfoldable pub uthread_init : ℤ → M Control
  unfolding init_with fail_with
  uthread_init (negsuc _) s = fail_with (returns failure) input_err s
  uthread_init (pos zero) s = fail_with (returns failure) input_err s
  uthread_init (pos (suc n)) s = init_with (suc n) s

  -- `uthread_spawn` from the allocation on, for the least free id.
  unfoldable pub spawn_as : ℕ → List ℕ → ℕ → M Control
  unfolding cleanup die_of_memory new_thread emplace push_ready unblock_vt_alarm
  spawn_as tid others entry_point s = elim os.new_stack [
    | none ↦ die_of_memory (cleanup s)
    | some stack ↦
        (do
          modify (λ s. record s {
            free_ids = others;
            all_threads = emplace tid (new_thread os tid entry_point stack) s.all_threads;
          })
          push_ready tid
          unblock_vt_alarm os
          answer (pos tid))
          s
  ]

  unfoldable pub spawn_from : List ℕ → ℕ → M Control
  unfolding spawn_as fail_with
  spawn_from [] entry_point s = fail_with (returns failure) max_threads_err s
  spawn_from (tid ∷ others) zero s = fail_with (returns failure) spawn_null s
  spawn_from (tid ∷ others) (suc pc) s = spawn_as tid others (suc pc) s

  unfoldable pub uthread_spawn : ℕ → M Control
  unfolding block_vt_alarm spawn_from
  uthread_spawn entry_point = do block_vt_alarm os; s ← get; spawn_from s.free_ids entry_point

  abbrev pub resume_alarm : M Control
  resume_alarm = unblock_vt_alarm os >> answer success

  unfoldable pub erase_ready : ℕ → M (Unit {0})
  erase_ready tid s = elim (erase_found tid s.ready_tids) [
    | none ↦ undefined
    | some rest ↦ ok tt (record s { ready_tids = rest })
  ]

  -- The `switch (status)` of `uthread_terminate`, once the thread is gone. `delete` of the running thread has
  -- freed the stack on which this is executed; the stacks are not modelled.
  unfoldable pub terminate_as : Status → ℕ → M Control
  unfolding reset_timer unblock_vt_alarm switch_threads erase_ready
  terminate_as running tid = do
    reset_timer os
    unblock_vt_alarm os
    switch_threads os terminated in_terminate
  terminate_as ready tid = erase_ready tid >> resume_alarm
  terminate_as blocked tid =
      modify (λ s. record s { blocked_tids = update s.blocked_tids tid false }) >> resume_alarm
  terminate_as _ tid = resume_alarm

  -- From the search in `all_threads_` on.
  unfoldable pub terminate_found : Option UThread → ℕ → M Control
  unfolding terminate_as fail_with
  terminate_found none tid s = fail_with (returns failure) tid_not_exist s
  terminate_found (some u) tid s = terminate_as u.status tid (record s {
    free_ids = insert_sorted tid s.free_ids;
    all_threads = update s.all_threads tid none;
  })

  unfoldable pub terminate_id : ℤ → M Control
  unfolding terminate_found cleanup fail_with
  terminate_id (negsuc _) s = fail_with (returns failure) tid_not_exist s
  terminate_id (pos zero) s = exited success (cleanup s)
  terminate_id (pos (suc t)) s = terminate_found (s.all_threads (suc t)) (suc t) s

  unfoldable pub uthread_terminate : ℤ → M Control
  unfolding block_vt_alarm terminate_id
  uthread_terminate tid = block_vt_alarm os >> terminate_id tid

  -- The `switch` of `uthread_block`. The case `ASLEEP` falls through to `BLOCKED`.
  unfoldable pub block_as : Status → ℕ → M Control
  unfolding reset_timer switch_threads erase_ready set_status unblock_vt_alarm
  block_as running tid = reset_timer os >> switch_threads os blocked in_block
  block_as ready tid = do
    erase_ready tid
    modify (λ s. record s { blocked_tids = update s.blocked_tids tid true })
    set_status tid blocked
    resume_alarm
  block_as asleep tid =
      modify (λ s. record s { blocked_tids = update s.blocked_tids tid true }) >> resume_alarm
  block_as _ tid = resume_alarm

  unfoldable pub block_found : Option UThread → ℕ → M Control
  unfolding block_as fail_with
  block_found none tid s = fail_with (returns failure) tid_not_exist s
  block_found (some u) tid s = block_as u.status tid s

  unfoldable pub block_id : ℤ → M Control
  unfolding block_found fail_with
  block_id (negsuc _) s = fail_with (returns failure) tid_not_exist s
  block_id (pos zero) s = fail_with (returns failure) block_thread_zero s
  block_id (pos (suc t)) s = block_found (s.all_threads (suc t)) (suc t) s

  unfoldable pub uthread_block : ℤ → M Control
  unfolding block_vt_alarm block_id
  uthread_block tid = block_vt_alarm os >> block_id tid

  -- The two tests of `uthread_resume`. The first leaves the status READY, so at most one passes.
  unfoldable pub resume_as : Status → ℕ → M Control
  unfolding push_ready set_status unblock_vt_alarm
  resume_as blocked tid = do
    modify (λ s. record s { blocked_tids = update s.blocked_tids tid false })
    push_ready tid
    set_status tid ready
    resume_alarm
  resume_as asleep tid =
      modify (λ s. record s { blocked_tids = update s.blocked_tids tid false }) >> resume_alarm
  resume_as _ tid = resume_alarm

  unfoldable pub resume_found : Option UThread → ℕ → M Control
  unfolding resume_as fail_with
  resume_found none tid s = fail_with (returns failure) tid_not_exist s
  resume_found (some u) tid s = resume_as u.status tid s

  unfoldable pub resume_id : ℤ → M Control
  unfolding resume_found fail_with
  resume_id (negsuc _) s = fail_with (returns failure) tid_not_exist s
  resume_id (pos t) s = resume_found (s.all_threads t) t s

  unfoldable pub uthread_resume : ℤ → M Control
  unfolding block_vt_alarm resume_id
  uthread_resume tid = block_vt_alarm os >> resume_id tid

  -- `uthread_sleep` for the running thread `tid`, after the two tests.
  unfoldable pub sleep_as : ℕ → ℕ → M Control
  unfolding set_status reset_timer switch_threads
  sleep_as tid num_quantums = do
    set_status tid asleep
    modify (λ s. record s { sleepers = emplace_sorted tid num_quantums s.sleepers })
    reset_timer os
    switch_threads os asleep in_sleep

  unfoldable pub sleep_if : ℕ → ℤ → M Control
  unfolding sleep_as fail_with
  sleep_if zero _ s = fail_with (returns failure) sleep_thread_zero s
  sleep_if (suc t) (negsuc _) s = fail_with (returns failure) input_err s
  sleep_if (suc t) (pos n) s = sleep_as (suc t) n s

  unfoldable pub uthread_sleep : ℤ → M Control
  unfolding block_vt_alarm sleep_if
  uthread_sleep num_quantums = do block_vt_alarm os; s ← get; sleep_if s.running_tid num_quantums

  unfoldable pub quantums_found : Option UThread → M Control
  unfolding unblock_vt_alarm fail_with
  quantums_found none s = fail_with (returns failure) tid_not_exist s
  quantums_found (some u) s = (unblock_vt_alarm os >> answer (pos u.quantums)) s

  unfoldable pub uthread_get_quantums : ℤ → M Control
  unfolding block_vt_alarm quantums_found
  uthread_get_quantums tid = do
    block_vt_alarm os
    s ← get
    quantums_found (thread_of tid s.all_threads)

unfoldable pub uthread_get_tid : M Control
uthread_get_tid s = ok (returns (pos s.running_tid)) s

unfoldable pub uthread_get_total_quantums : M Control
uthread_get_total_quantums s = ok (returns (pos s.total_quantums)) s
