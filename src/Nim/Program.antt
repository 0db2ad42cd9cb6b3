-- ===== src/Nim/Program.antt =====
-- A program over the library: the calls that its threads make, the alarms between them, and where
-- control lands after a switch.
use user_level_threads_libra.Prelude.{ℕ, if◌then◌else◌, List, [], ◌∷◌, ℤ}
use user_level_threads_libra.Nim.State.{Os}
use user_level_threads_libra.Nim.Process.{M, ok, ◌>>=◌, return}
use user_level_threads_libra.Nim.Scheduler.{
  Control, goes_on, jumps, Landing, land, alarm_sig_handler,
}
use user_level_threads_libra.Nim.Mutex.{uthread_mutex_lock, uthread_mutex_unlock}
use user_level_threads_libra.Nim.Api.{
  uthread_spawn, uthread_terminate, uthread_block, uthread_resume, uthread_get_tid,
  uthread_get_quantums, uthread_get_total_quantums,
}

pub data Event : Type 0 where
  spawn : (f : ℕ) → Event
  terminate block resume get_quantums : ℤ → Event
  mutex_lock mutex_unlock get_tid get_total_quantums alarm : Event

-- While SIGVTALRM is blocked, the kernel delivers no alarm. One that is pending is, in a history, an alarm of
-- its own after the call that has unblocked SIGVTALRM.
unfoldable pub alarm_comes : Os → M Control
unfolding alarm_sig_handler
alarm_comes os s = if s.masked then ok goes_on s else alarm_sig_handler os s

unfoldable pub perform : Os → Event → M Control
unfolding uthread_spawn uthread_terminate uthread_block uthread_resume uthread_get_tid
    uthread_get_quantums uthread_get_total_quantums uthread_mutex_lock uthread_mutex_unlock
    alarm_comes
perform os (spawn f) = uthread_spawn os f
perform os (terminate t) = uthread_terminate os t
perform os (block t) = uthread_block os t
perform os (resume t) = uthread_resume os t
perform os (get_quantums t) = uthread_get_quantums os t
perform os mutex_lock = uthread_mutex_lock os
perform os mutex_unlock = uthread_mutex_unlock os
perform os get_tid = uthread_get_tid os
perform os get_total_quantums = uthread_get_total_quantums os
perform os alarm = alarm_comes os

-- A jump to a saved environment goes on where it lands.
unfoldable pub settle : Landing → Os → Control → M Control
unfolding land
settle l os (jumps pt) = land os l pt
settle l os c = return c

unfoldable pub run : Landing → List (Os × Event) → M (Unit {0})
unfolding perform settle
run l [] = return tt
run l ((os, e) ∷ rest) = (perform os e >>= settle l os) >>= λ _. run l rest
