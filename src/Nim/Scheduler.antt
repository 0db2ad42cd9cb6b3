-- ===== src/Nim/Scheduler.antt =====
-- nim/uthreads.cpp, switchThread and alarmSigHandler, with saveEnv and startThread of nim/Thread.cpp.
use user_level_threads_libra.Prelude.{
  ℕ, ◌+◌, Bool, true, false, if◌then◌else◌, Option, none, some, List, [], ◌∷◌, ℤ,
}
use user_level_threads_libra.Uthreads.State.{update, success}
use user_level_threads_libra.Nim.State.{
  Os, Thread, States, Point, ready, blocked, mutex_blocked, in_constructor, at_entry, in_handler,
  in_block, in_lock, in_terminate,
}
use user_level_threads_libra.Prelude.{contains}
use user_level_threads_libra.Nim.Process.{
  M, ok, undefined, ◌>>=◌, ◌>>◌, return, get, modify, get_id, at_object, push_back,
}
use user_level_threads_libra.Nim.Signals.{block, unblock, run_timer}

-- What happens next, in the thread `running`: a call of the library returns, the thread begins, it goes
-- on where the alarm interrupted it, or control goes through `siglongjmp` to a saved environment.
pub data Control : Type 0 where
  returns : ℤ → Control
  begins : (sp pc : ℕ) → Control
  goes_on : Control
  jumps : Point → Control

-- `m[k] = p` for an unordered map: a new key changes the order of iteration.
unfoldable pub insert_key : Os → ℕ → List ℕ → List ℕ
insert_key os k m = if contains k m then m else os.reorder (k ∷ m)

unfoldable pub add_mutex_blocked : Os → ℕ → M (Unit {0})
unfolding insert_key
add_mutex_blocked os k = modify (λ s. record s { mutex_blocked = insert_key os k s.mutex_blocked })

unfoldable pub add_blocked : ℕ → M (Unit {0})
add_blocked k = modify (λ s. record s { blocked = update s.blocked k true })

-- `saveEnv`, where `sigsetjmp` returns 0.
unfoldable pub save_env : ℕ → Point → M (Unit {0})
unfolding at_object
save_env p pt s = at_object p (λ u. record u { env = record { point = pt; mask = s.masked } }) s

unfoldable pub run_front : List ℕ → M (Unit {0})
run_front [] s = undefined
run_front (p ∷ rest) s = ok tt (record s { running = p; ready = rest })

-- `running = ready.front(); ready.pop_front();`: the front of an empty deque is undefined.
unfoldable pub next_thread : M (Unit {0})
unfolding run_front
next_thread s = run_front s.ready s

-- `siglongjmp(_env, 1)`
unfoldable pub jump_to : Option Thread → M Control
jump_to none s = undefined
jump_to (some u) s = ok (jumps u.env.point) (record s { masked = u.env.mask })

-- `running->startThread()`
unfoldable pub start_thread : M Control
unfolding at_object jump_to
start_thread = do
  s ← get
  at_object s.running (λ u. record u { quantums = u.quantums + 1 })
  r ← get
  jump_to (r.objects r.running)

abbrev pub count_quantum : M (Unit {0})
count_quantum = modify (λ s. record s { total_quantum = s.total_quantum + 1 })

module _ (os : Os) where
  -- Where `switchThread` puts the leaving thread.
  unfoldable pub move_out : States → ℕ → M (Unit {0})
  unfolding get_id add_blocked add_mutex_blocked push_back
  move_out blocked p = get_id p >>= add_blocked
  move_out mutex_blocked p = get_id p >>= add_mutex_blocked os
  move_out ready p = push_back p
  move_out _ p = return tt

  -- `switchThread` after `saveEnv`, up to the test of `jump`.
  unfoldable pub choose_next : Bool → M (Unit {0})
  unfolding next_thread run_timer
  choose_next init_alarm = do
    next_thread
    if init_alarm then run_timer os else return tt
    count_quantum

  -- `switchThread(move_to, init_alarm, jump)`, called from the function that `pt` names.
  unfoldable pub switch_out : States → Bool → Point → M (Unit {0})
  unfolding move_out save_env choose_next
  switch_out move_to init_alarm pt = do
    s ← get
    let going_out = s.running
    move_out move_to going_out
    save_env going_out pt
    choose_next init_alarm

  unfoldable pub switch_thread : States → Bool → Bool → Point → M Control
  unfolding switch_out start_thread
  switch_thread move_to init_alarm jump pt = do
    switch_out move_to init_alarm pt
    if jump then start_thread else return goes_on

  unfoldable pub alarm_sig_handler : M Control
  unfolding block switch_thread
  alarm_sig_handler = block os >> switch_thread ready false true in_handler

-- `saveEnv` has returned when `siglongjmp` goes to the environment that it saved, which C leaves
-- undefined. Control may come out of `saveEnv` a second time, as the source reads, or out of
-- `startThread`, whose return address is the last one that was left in that place of the stack.
pub data Landing : Type 0 where
  at_save : Landing
  past_jump : Landing
  nowhere : Landing

abbrev pub handler_returns : M Control
handler_returns s = ok goes_on (record s { masked = false })

module _ (os : Os) where
  -- The rest of the function that called `switchThread`. The kernel restores the mask when the handler
  -- returns. The frame of the constructor is gone, and the thread of `in_terminate` is deleted.
  unfoldable pub after_switch : Point → M Control
  unfolding unblock
  after_switch in_constructor s = undefined
  after_switch (at_entry sp pc) s = ok (begins sp pc) s
  after_switch in_handler s = (unblock os >> handler_returns) s
  after_switch in_block s = (unblock os >> return (returns success)) s
  after_switch in_lock s = (unblock os >> return (returns success)) s
  after_switch in_terminate s = undefined

  -- The rest of `switchThread` as it is read after `saveEnv`, for a thread that has been saved in it.
  unfoldable pub switch_again : Point → M Control
  unfolding choose_next start_thread
  switch_again in_constructor s = undefined
  switch_again (at_entry sp pc) s = ok (begins sp pc) s
  switch_again in_handler s = (choose_next os false >> start_thread) s
  switch_again in_block s = (choose_next os true >> start_thread) s
  switch_again in_lock s = (choose_next os true >> start_thread) s
  switch_again in_terminate s = undefined

  unfoldable pub land : Landing → Point → M Control
  unfolding after_switch switch_again
  land at_save pt = switch_again pt
  land past_jump pt = after_switch pt
  land nowhere (at_entry sp pc) = return (begins sp pc)
  land nowhere _ = λ s. undefined
