-- ===== src/Uthreads/Scheduler.antt =====
-- uthreads.cpp, update_sleepers to timer_handler, with startRunning and saveEnvironment: the round-robin
-- scheduler and the jump to the thread that it chooses.
use user_level_threads_libra.Prelude.{
  ℕ, zero, suc, ◌+◌, true, false, if◌then◌else◌, Option, none, some, List, [], ◌∷◌, ◌++◌, ℤ,
}
use user_level_threads_libra.Uthreads.State.{
  Os, UThread, Status, Point, update, success, ready, running, blocked, terminated, in_constructor,
  at_entry, in_handler, in_block, in_sleep, in_terminate,
}
use user_level_threads_libra.Uthreads.Process.{
  M, ok, undefined, ◌>>=◌, ◌>>◌, return, get, modify, at_thread, set_status, push_ready,
}
use user_level_threads_libra.Uthreads.Signals.{block_vt_alarm, unblock_vt_alarm}

-- What the program sees next, in the thread `running_tid`: a call of the library returns, the thread
-- begins, or it goes on where the alarm interrupted it.
pub data Control : Type 0 where
  returns : ℤ → Control
  begins : (sp pc : ℕ) → Control
  goes_on : Control

-- The sleeper `t` has slept enough.
unfoldable pub wake : ℕ → M (Unit {0})
unfolding set_status push_ready
wake t = do
  s ← get
  if s.blocked_tids t then set_status t blocked else (set_status t ready >> push_ready t)

-- The loop of `update_sleepers` from an iterator on. The entries before it that stay are in
-- `sleepers`. A counter is at least 0 between two calls, so it becomes -1 exactly if it was 0.
unfoldable pub update_sleepers_from : List (ℕ × ℕ) → M (Unit {0})
unfolding wake
update_sleepers_from [] = return tt
update_sleepers_from ((t, zero) ∷ rest) = wake t >> update_sleepers_from rest
update_sleepers_from ((t, suc n) ∷ rest) =
    modify (λ s. record s { sleepers = s.sleepers ++ (t, n) ∷ [] }) >> update_sleepers_from rest

unfoldable pub update_sleepers : M (Unit {0})
update_sleepers s = update_sleepers_from s.sleepers (record s { sleepers = [] })

unfoldable pub run_first : List ℕ → M (Unit {0})
unfolding set_status
run_first [] = modify (λ s. record s { running_tid = 0 })
run_first (t ∷ rest) = do
  modify (λ s. record s { running_tid = t; ready_tids = rest })
  set_status t running

unfoldable pub insert_ready_to_running : M (Unit {0})
unfolding run_first
insert_ready_to_running s = run_first s.ready_tids s

-- The body of `switch (to)` for the running thread, without the case `TERMINATED`.
unfoldable pub leave : Status → ℕ → M (Unit {0})
unfolding push_ready set_status
leave ready t = push_ready t >> set_status t ready
leave blocked t =
    modify (λ s. record s { blocked_tids = update s.blocked_tids t true }) >> set_status t blocked
leave _ t = return tt

abbrev pub count_quantum : M (Unit {0})
count_quantum = modify (λ s. record s { total_quantums = s.total_quantums + 1 })

-- `sigsetjmp(env_, 1)` where it returns 0.
unfoldable pub save_environment : ℕ → Point → M (Unit {0})
unfolding at_thread
save_environment t p s =
    at_thread t (λ u. record u { env = record { point = p; mask = s.masked } }) s

abbrev pub handler_returns : M Control
handler_returns s = ok goes_on (record s { masked = false })

module _ (os : Os) where
  -- What is executed after a `siglongjmp` to a point: `sigsetjmp` returns 1, `switch_threads` returns,
  -- and its caller does what is left. The kernel restores the mask when the handler returns; the alarm
  -- came while it was not blocked. The frame of the constructor is gone.
  unfoldable pub resume_at : Point → M Control
  unfolding unblock_vt_alarm
  resume_at in_constructor s = undefined
  resume_at (at_entry sp pc) s = ok (begins sp pc) s
  resume_at in_handler s = (unblock_vt_alarm os >> handler_returns) s
  resume_at in_block s = (unblock_vt_alarm os >> return (returns success)) s
  resume_at in_sleep s = ok (returns success) s
  resume_at in_terminate s = (unblock_vt_alarm os >> return (returns success)) s

  -- `siglongjmp(env_, 1)`
  unfoldable pub jump_to : Option UThread → M Control
  unfolding resume_at
  jump_to none s = undefined
  jump_to (some u) s = resume_at u.env.point (record s { masked = u.env.mask })

  -- `all_threads_[running_tid_]->startRunning()`
  unfoldable pub start_running : M Control
  unfolding at_thread jump_to
  start_running = do
    s ← get
    at_thread s.running_tid (λ u. record u { quantums = u.quantums + 1 })
    r ← get
    jump_to (r.all_threads r.running_tid)

  -- The label `jump`.
  unfoldable pub jump : M Control
  unfolding unblock_vt_alarm start_running
  jump = unblock_vt_alarm os >> start_running

  -- The running thread gives up the processor for the next one, and would go on at `p`.
  unfoldable pub switch_threads : Status → Point → M Control
  unfolding update_sleepers insert_ready_to_running leave save_environment jump
  switch_threads terminated p = do update_sleepers; insert_ready_to_running; count_quantum; jump
  switch_threads to p = do
    update_sleepers
    s ← get
    let orig_tid = s.running_tid
    leave to orig_tid
    insert_ready_to_running
    count_quantum
    save_environment orig_tid p
    jump

  unfoldable pub timer_handler : M Control
  unfolding block_vt_alarm switch_threads
  timer_handler = block_vt_alarm os >> switch_threads ready in_handler
