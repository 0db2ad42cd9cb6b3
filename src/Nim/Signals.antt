-- ===== src/Nim/Signals.antt =====
-- nim/uthreads.cpp: block, unblock, install_handlers and run_timer.
use user_level_threads_libra.Prelude.{true, false, ◌||◌, if◌then◌else◌}
use user_level_threads_libra.Uthreads.Signals.{quantum_timer}
use user_level_threads_libra.Nim.State.{
  Os, thread_library_error, timer_library_error, sig_setmask, sig_block, sig_unblock,
}
use user_level_threads_libra.Nim.Process.{M, ◌>>=◌, ◌>>◌, get, modify, die_if}

module _ (os : Os) where
  -- The mask becomes `set`, and the mask from before is blocked besides.
  unfoldable pub block : M (Unit {0})
  unfolding die_if
  block = do
    s ← get
    let oset = s.masked
    die_if (os.sigprocmask_fails sig_setmask) thread_library_error
    modify (λ s. record s { masked = s.set })
    die_if (os.sigprocmask_fails sig_block) thread_library_error
    modify (λ s. record s { masked = s.masked || oset })

  unfoldable pub unblock : M (Unit {0})
  unfolding die_if
  unblock = do
    die_if (os.sigprocmask_fails sig_unblock) thread_library_error
    modify (λ s. record s { masked = if s.set then false else s.masked })

  unfoldable pub install_handlers : M (Unit {0})
  unfolding die_if
  install_handlers = do
    die_if os.sigemptyset_fails thread_library_error
    modify (λ s. record s { set = false })
    die_if os.sigaddset_fails thread_library_error
    modify (λ s. record s { set = true })
    die_if os.sigaction_fails thread_library_error
    modify (λ s. record s { handled = true })

  -- The timer is split into seconds and microseconds as in `start_timer` of uthreads.cpp.
  unfoldable pub run_timer : M (Unit {0})
  unfolding die_if
  run_timer = do
    modify (λ s. record s { timer = quantum_timer s.quantum_time })
    s ← get
    die_if (os.setitimer_fails s.timer) timer_library_error
    modify (λ s. record s { armed = true })
