-- ===== src/Nim/Healthy.antt =====
-- The library on a system whose calls succeed when their arguments are valid.
use user_level_threads_libra.Prelude.{◌+◌, ◌<◌, ◌≡◌, refl, false, true, some, arith}
use user_level_threads_libra.Effects.{bind-eq}
use user_level_threads_libra.Uthreads.State.{ITimerVal, micro_to_sec, update}
use user_level_threads_libra.Nim.State.{Os, State, Thread, How}
use user_level_threads_libra.Nim.Process.{ok, die_if, at_object}
use user_level_threads_libra.Nim.Signals.{block, unblock}
use user_level_threads_libra.Nim.Scheduler.{Control, jumps, start_thread, jump_to}
use user_level_threads_libra.Nim.Mutex.{leave_with}
use user_level_threads_libra.Nim.Invariant.Switch.{at_object-eq}
use user_level_threads_libra.Prelude.{==-refl}

-- `setitimer` fails with EINVAL for a number of microseconds out of range, and for no timer in range.
pub record IsHealthy (os : Os) : Type 0 where
  pub emptyset : os.sigemptyset_fails ≡ false
  pub addset : os.sigaddset_fails ≡ false
  pub procmask : (h : How) → os.sigprocmask_fails h ≡ false
  pub action : os.sigaction_fails ≡ false
  pub itimer :
      (v : ITimerVal)
      → v.value.usec < micro_to_sec
      → v.interval.usec < micro_to_sec
      → os.setitimer_fails v ≡ false

module _ {os : Os} (well : IsHealthy os) where
  pub block-eq : (s : State) → s.set ≡ true → block os s ≡ ok tt (record s { masked = true })
  unfolding block die_if
  block-eq s e = ground (arith, well.procmask How.sig_setmask, well.procmask How.sig_block, e)

  pub unblock-eq : (s : State) → s.set ≡ true → unblock os s ≡ ok tt (record s { masked = false })
  unfolding unblock die_if
  unblock-eq s e = ground (arith, well.procmask How.sig_unblock, e)

  pub leave_with-eq :
      (c : Control) (s : State)
      → s.set ≡ true
      → leave_with os c s ≡ ok c (record s { masked = false })
  leave_with-eq c s e = bind-eq (unblock os) _ s (unblock-eq s e) refl

pub start_thread-eq :
    (s : State) (u : Thread)
    → s.objects s.running ≡ some u
    → start_thread s
      ≡ ok (jumps u.env.point) (record s {
        objects = update s.objects s.running (some (record u { quantums = u.quantums + 1 }));
        masked = u.env.mask;
      })
unfolding start_thread jump_to
start_thread-eq s u e =
    bind-eq (at_object s.running _) _ s (at_object-eq s.running _ s u e) (rw (==-refl s.running))
