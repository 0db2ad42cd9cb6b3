-- ===== src/Nim/Api.antt =====
-- nim/uthreads.cpp, the constructors of Thread and the functions of uthreads.h, in the order of the
-- source. A thread id and a quantum are C ints, so they may be negative.
use user_level_threads_libra.Prelude.{
  ℕ, zero, suc, ◌+◌, ◌-◌, ◌==◌, ltb, Bool, true, false, if◌then◌else◌, Option, none, some, List, [],
  ◌∷◌, ℤ, pos, negsuc, contains, erase, length,
}
use user_level_threads_libra.Uthreads.State.{
  success, failure, update, max_thread_num, stack_size, address_size,
}
use user_level_threads_libra.Nim.State.{
  Os, Thread, blocked, no_state, in_constructor, at_entry, in_block, in_terminate, memory_error,
  init_error, spawn_error, terminate_error, block_error, block_zero_error, unblock_error,
  get_quantum_err,
}
use user_level_threads_libra.Nim.Process.{
  M, ok, exited, undefined, ◌>>=◌, ◌>>◌, return, get, modify, get_id, push_back, print_errors,
  system_error, free_all_thread,
}
use user_level_threads_libra.Nim.Signals.{block, unblock, install_handlers, run_timer}
use user_level_threads_libra.Nim.Scheduler.{
  Control, returns, insert_key, add_blocked, start_thread, switch_thread,
}
use user_level_threads_libra.Nim.Mutex.{
  owner_id, mutex_unblock_random_thread, leave_with, fail_with,
}

-- The two constructors of `Thread`.
unfoldable pub main_thread : Thread
main_thread = record { id = 0; quantums = 1; env = record { point = in_constructor; mask = false } }

unfoldable pub new_thread : Os → ℕ → ℕ → ℕ → Thread
new_thread os id f stack = record {
  id = id;
  quantums = 0;
  env =
      let sp = stack + stack_size - address_size in
      record { point = at_entry (os.translate_address sp) (os.translate_address f); mask = false };
}

-- The loop of `getId`, by the rounds that are left.
unfoldable pub first_free : ℕ → ℕ → List ℕ → ℕ
first_free zero i ids = max_thread_num - 1
first_free (suc n) i ids = let rest = first_free n (i + 1) ids in if contains i ids then rest else i

-- The library's `int getId()`.
unfoldable pub get_free_id : List ℕ → ℕ
unfolding first_free
get_free_id ids = first_free (max_thread_num - 1) 1 ids

-- `findIdeque(id) != ready.end()`
unfoldable pub find_ideque : ℕ → List ℕ → M Bool
unfolding get_id
find_ideque id [] = return false
find_ideque id (p ∷ ps) =
    let rest = find_ideque id ps in get_id p >>= λ i. if i == id then return true else rest

-- `freeThread`. The pointer that it returns is the id.
unfoldable pub free_thread : ℕ → M (Unit {0})
unfolding find_ideque erase
free_thread id = do
  modify
      (λ s. record s { all_threads = erase id s.all_threads; blocked = update s.blocked id false })
  s ← get
  found ← find_ideque id s.ready
  if found then modify (λ s. record s { ready = erase id s.ready }) else return tt
  modify (λ s. record s { mutex_blocked = erase id s.mutex_blocked })

-- `delete p`
abbrev pub delete_thread : ℕ → M (Unit {0})
delete_thread p = modify (λ s. record s { objects = update s.objects p none })

module _ (os : Os) where
  unfoldable pub make_main : M (Unit {0})
  unfolding main_thread system_error
  make_main s = elim os.new_stack [
    | none ↦ system_error memory_error s
    | some _ ↦ ok tt (record s { objects = update s.objects 0 (some main_thread) })
  ]

  unfoldable pub init_with : ℕ → M Control
  unfolding make_main insert_key install_handlers run_timer
  init_with quantum_usecs = do
    modify (λ s. record s { mutex = record { blocked = false; thread_block = none } })
    make_main
    modify (λ s. record s {
      all_threads = insert_key os 0 s.all_threads;
      running = 0;
      total_quantum = s.total_quantum + 1;
      quantum_time = quantum_usecs;
    })
    install_handlers os
    run_timer os
    return (returns success)

  -- The test `quantum_usecs <= 0` takes the first two clauses.
  unfoldable pub uthread_init : ℤ → M Control
  unfolding init_with print_errors
  uthread_init (negsuc _) = print_errors init_error >> return (returns failure)
  uthread_init (pos zero) = print_errors init_error >> return (returns failure)
  uthread_init (pos (suc n)) = init_with (suc n)

  -- `uthread_spawn` from the allocation on.
  unfoldable pub spawn_as : ℕ → ℕ → M Control
  unfolding new_thread system_error insert_key push_back unblock
  spawn_as id f s = elim os.new_stack [
    | none ↦ system_error memory_error s
    | some stack ↦
        (do
          modify (λ s. record s {
            objects = update s.objects id (some (new_thread os id f stack));
            all_threads = insert_key os id s.all_threads;
          })
          push_back id
          leave_with os (returns (pos id)))
          s
  ]

  -- A full table is refused with SIGVTALRM still blocked.
  unfoldable pub uthread_spawn : ℕ → M Control
  unfolding block get_free_id spawn_as print_errors
  uthread_spawn f = do
    block os
    s ← get
    if ltb max_thread_num (length s.all_threads + 1)
        then (print_errors spawn_error >> return (returns failure))
        else spawn_as (get_free_id s.all_threads) f

  -- `if (mutex.blocked && tid == mutex.thread_block->getId()) mutex_unblock_random_thread();`
  unfoldable pub release_mutex_of : ℕ → M (Unit {0})
  unfolding owner_id mutex_unblock_random_thread
  release_mutex_of tid = do
    s ← get
    if s.mutex.blocked
        then (owner_id s.mutex.thread_block >>= λ owner.
            if tid == owner then mutex_unblock_random_thread else return tt)
        else return tt

  -- The end of `uthread_terminate`, once `freeThread` has been called.
  unfoldable pub terminate_freed : ℕ → M Control
  unfolding get_id switch_thread start_thread unblock
  terminate_freed tid = do
    s ← get
    id ← get_id s.running
    if tid == id
        then (switch_thread os no_state true false in_terminate >>= λ _.
            delete_thread tid >> start_thread)
        else (delete_thread tid >> leave_with os (returns success))

  unfoldable pub terminate_found : ℕ → M Control
  unfolding release_mutex_of free_thread terminate_freed
  terminate_found tid = do release_mutex_of tid; free_thread tid; terminate_freed tid

  unfoldable pub terminate_id : ℤ → M Control
  unfolding terminate_found free_all_thread print_errors unblock
  terminate_id (negsuc _) s = fail_with os terminate_error s
  terminate_id (pos zero) s =
      if contains 0 s.all_threads
      then exited success (free_all_thread s)
      else fail_with os terminate_error s
  terminate_id (pos (suc t)) s =
      if contains (suc t) s.all_threads
      then terminate_found (suc t) s
      else fail_with os terminate_error s

  unfoldable pub uthread_terminate : ℤ → M Control
  unfolding block terminate_id
  uthread_terminate tid = block os >> terminate_id tid

  -- `uthread_block`, for the answer of `findIdeque`. The last case is a thread that waits for the mutex
  -- or that is blocked.
  unfoldable pub block_found : Bool → ℕ → M Control
  unfolding add_blocked switch_thread erase unblock
  block_found true tid = do
    modify (λ s. record s { ready = erase tid s.ready })
    add_blocked tid
    leave_with os (returns success)
  block_found false tid = do
    s ← get
    if s.running == tid
        then switch_thread os blocked true true in_block
        else (add_blocked tid >> leave_with os (returns success))

  unfoldable pub block_id : ℤ → M Control
  unfolding block_found find_ideque print_errors unblock
  block_id (negsuc _) s = fail_with os block_error s
  block_id (pos zero) s =
      if contains 0 s.all_threads
      then fail_with os block_zero_error s
      else fail_with os block_error s
  block_id (pos (suc t)) s =
      if contains (suc t) s.all_threads
      then (find_ideque (suc t) s.ready >>= λ found. block_found found (suc t)) s
      else fail_with os block_error s

  unfoldable pub uthread_block : ℤ → M Control
  unfolding block block_id
  uthread_block tid = block os >> block_id tid

  -- `uthread_resume` for a blocked thread: it is not ready while it waits for the mutex.
  unfoldable pub resume_blocked : ℕ → M Control
  unfolding push_back unblock
  resume_blocked tid = do
    s ← get
    if contains tid s.mutex_blocked then return tt else push_back tid
    modify (λ s. record s { blocked = update s.blocked tid false })
    leave_with os (returns success)

  unfoldable pub resume_id : ℤ → M Control
  unfolding resume_blocked print_errors unblock
  resume_id (negsuc _) s = fail_with os unblock_error s
  resume_id (pos t) s =
      if contains t s.all_threads
      then (if s.blocked t then resume_blocked t s else leave_with os (returns success) s)
      else fail_with os unblock_error s

  unfoldable pub uthread_resume : ℤ → M Control
  unfolding block resume_id
  uthread_resume tid = block os >> resume_id tid

  unfoldable pub uthread_get_tid : M Control
  unfolding block get_id unblock
  uthread_get_tid = do
    block os
    s ← get
    temp ← get_id s.running
    leave_with os (returns (pos temp))

  -- `allThreads[tid]->getQuantum()`
  unfoldable pub quantums_of : Option Thread → M Control
  unfolding unblock
  quantums_of none s = undefined
  quantums_of (some u) s = leave_with os (returns (pos u.quantums)) s

  unfoldable pub get_quantums_id : ℤ → M Control
  unfolding quantums_of print_errors unblock
  get_quantums_id (negsuc _) s = fail_with os get_quantum_err s
  get_quantums_id (pos t) s =
      if contains t s.all_threads
      then quantums_of (s.objects t) s
      else fail_with os get_quantum_err s

  unfoldable pub uthread_get_quantums : ℤ → M Control
  unfolding block get_quantums_id
  uthread_get_quantums tid = block os >> get_quantums_id tid

  unfoldable pub uthread_get_total_quantums : M Control
  unfolding block unblock
  uthread_get_total_quantums = do
    block os
    s ← get
    let temp = s.total_quantum
    leave_with os (returns (pos temp))
