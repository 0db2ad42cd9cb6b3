-- ===== src/Nim/Mutex.antt =====
-- nim/uthreads.cpp: mutex_unblock_random_thread, uthread_mutex_lock and uthread_mutex_unlock.
use user_level_threads_libra.Prelude.{
  ℕ, ◌==◌, Bool, true, false, if◌then◌else◌, Option, none, some, List, [], ◌∷◌, erase,
}
use user_level_threads_libra.Uthreads.State.{success, failure}
use user_level_threads_libra.Nim.State.{
  Os, LibraryError, mutex_blocked, in_lock, mutex_block_same, mutex_already_unblocked,
  mutex_blocked_by_someone_else,
}
use user_level_threads_libra.Nim.Process.{
  M, undefined, ◌>>=◌, ◌>>◌, return, get, modify, get_id, push_back, print_errors,
}
use user_level_threads_libra.Nim.Signals.{block, unblock}
use user_level_threads_libra.Nim.Scheduler.{Control, returns, add_mutex_blocked, switch_thread}

-- `mutex.thread_block->getId()`
unfoldable pub owner_id : Option ℕ → M ℕ
unfolding get_id
owner_id none s = undefined
owner_id (some p) s = get_id p s

-- The first waiting thread that is not blocked besides; if there is none, the first.
unfoldable pub first_unblocked : (ℕ → Bool) → List ℕ → ℕ → ℕ
first_unblocked b [] p = p
first_unblocked b (q ∷ qs) p = let rest = first_unblocked b qs p in if b q then rest else q

-- The thread `p` gets the mutex.
unfoldable pub give_mutex : ℕ → M (Unit {0})
unfolding get_id push_back
give_mutex p = do
  modify (λ s. record s { mutex = record { blocked = true; thread_block = some p } })
  id ← get_id p
  modify (λ s. record s { mutex_blocked = erase id s.mutex_blocked })
  s ← get
  if s.blocked id then return tt else push_back p

unfoldable pub unblock_waiting : List ℕ → M (Unit {0})
unfolding first_unblocked give_mutex
unblock_waiting [] =
    modify (λ s. record s { mutex = record { blocked = false; thread_block = none } })
unblock_waiting (p ∷ ps) = do s ← get; give_mutex (first_unblocked s.blocked (p ∷ ps) p)

unfoldable pub mutex_unblock_random_thread : M (Unit {0})
unfolding unblock_waiting
mutex_unblock_random_thread s = unblock_waiting s.mutex_blocked s

module _ (os : Os) where
  -- `unblock(); return …;`
  abbrev pub leave_with : Control → M Control
  leave_with c = unblock os >> return c

  -- `printErrors(e); unblock(); return FAIL;`
  abbrev pub fail_with : LibraryError → M Control
  fail_with e = print_errors e >> leave_with (returns failure)

  unfoldable pub lock_held : ℕ → M Control
  unfolding get_id owner_id print_errors unblock add_mutex_blocked switch_thread
  lock_held current = do
    s ← get
    owner ← owner_id s.mutex.thread_block
    id ← get_id current
    if owner == id
        then fail_with mutex_block_same
        else (add_mutex_blocked os id >> switch_thread os mutex_blocked true true in_lock)

  unfoldable pub lock_free : ℕ → M Control
  unfolding unblock
  lock_free current = do
    modify (λ s. record s { mutex = record { blocked = true; thread_block = some current } })
    leave_with (returns success)

  unfoldable pub uthread_mutex_lock : M Control
  unfolding block lock_held lock_free
  uthread_mutex_lock = do
    block os
    s ← get
    if s.mutex.blocked then lock_held s.running else lock_free s.running

  unfoldable pub unlock_held : M Control
  unfolding get_id owner_id print_errors unblock mutex_unblock_random_thread
  unlock_held = do
    s ← get
    id ← get_id s.running
    owner ← owner_id s.mutex.thread_block
    if id == owner
        then (mutex_unblock_random_thread >> leave_with (returns success))
        else fail_with mutex_blocked_by_someone_else

  unfoldable pub uthread_mutex_unlock : M Control
  unfolding block unlock_held print_errors unblock
  uthread_mutex_unlock = do
    block os
    s ← get
    if s.mutex.blocked then unlock_held else fail_with mutex_already_unblocked
