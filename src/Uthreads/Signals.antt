-- ===== src/Uthreads/Signals.antt =====
-- uthreads.cpp, start_timer to unblock_vtAlarm and initialize_sigaction: the virtual timer, the signal
-- mask and the handler.
use user_level_threads_libra.Prelude.{ℕ, ◌/◌, ◌%◌, true, false}
use user_level_threads_libra.Uthreads.State.{
  Os, ITimerVal, micro_to_sec, no_time, sigs_error, timer_err, sig_block, sig_unblock,
}
use user_level_threads_libra.Uthreads.Process.{M, ◌>>=◌, ◌>>◌, get, modify, die_if}

-- The value that `start_timer` writes to both members of the timer.
abbrev pub quantum_timer : ℕ → ITimerVal
quantum_timer q =
    let sec = q / micro_to_sec in
    let micro = q % micro_to_sec in
    record {
      value = record { sec = sec; usec = micro };
      interval = record { sec = sec; usec = micro };
    }

module _ (os : Os) where
  unfoldable pub start_timer : M (Unit {0})
  unfolding die_if
  start_timer = do
    modify (λ s. record s { timer = quantum_timer s.quantum })
    s ← get
    die_if (os.setitimer_fails s.timer) timer_err
    modify (λ s. record s { armed = true })

  unfoldable pub reset_timer : M (Unit {0})
  unfolding start_timer
  reset_timer = do modify (λ s. record s { timer = no_time }); start_timer

  unfoldable pub block_vt_alarm : M (Unit {0})
  unfolding die_if
  block_vt_alarm = do
    die_if os.sigemptyset_fails sigs_error
    die_if os.sigaddset_fails sigs_error
    die_if (os.sigprocmask_fails sig_block) sigs_error
    modify (λ s. record s { masked = true })

  unfoldable pub unblock_vt_alarm : M (Unit {0})
  unfolding die_if
  unblock_vt_alarm = do
    die_if os.sigemptyset_fails sigs_error
    die_if os.sigaddset_fails sigs_error
    die_if (os.sigprocmask_fails sig_unblock) sigs_error
    modify (λ s. record s { masked = false })

  unfoldable pub initialize_sigaction : M (Unit {0})
  unfolding die_if
  initialize_sigaction = do
    die_if os.sigaction_fails sigs_error
    modify (λ s. record s { handled = true })
