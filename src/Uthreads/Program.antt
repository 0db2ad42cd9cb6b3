-- ===== src/Uthreads/Program.antt =====
-- A program over the library: the calls that its threads make, and the alarms between them.
use user_level_threads_libra.Prelude.{
  ℕ, ◌≢◌, if◌then◌else◌, Option, none, some, List, [], ◌∷◌, ℤ, ◌≡◌,
}
use user_level_threads_libra.Uthreads.State.{Os, State, UThread, asleep}
use user_level_threads_libra.Uthreads.Process.{M, ok, ◌>>=◌, return}
use user_level_threads_libra.Uthreads.Scheduler.{Control, goes_on, timer_handler}
use user_level_threads_libra.Uthreads.Api.{
  uthread_spawn, uthread_terminate, uthread_block, uthread_resume, uthread_sleep, uthread_get_tid,
  uthread_get_total_quantums, uthread_get_quantums, thread_of,
}

pub data Event : Type 0 where
  spawn : (entry_point : ℕ) → Event
  terminate block resume sleep get_quantums : ℤ → Event
  get_tid get_total_quantums alarm : Event

-- While SIGVTALRM is blocked, the kernel delivers no alarm. It delivers one that is pending when SIGVTALRM is
-- unblocked: in a history that is an alarm of its own after the call that has unblocked it.
unfoldable pub alarm_comes : Os → M Control
unfolding timer_handler
alarm_comes os s = if s.masked then ok goes_on s else timer_handler os s

-- The running thread makes a call, or the alarm comes.
unfoldable pub perform : Os → Event → M Control
unfolding uthread_spawn uthread_terminate uthread_block uthread_resume uthread_sleep uthread_get_tid
    uthread_get_total_quantums uthread_get_quantums alarm_comes
perform os (spawn e) = uthread_spawn os e
perform os (terminate t) = uthread_terminate os t
perform os (block t) = uthread_block os t
perform os (resume t) = uthread_resume os t
perform os (sleep n) = uthread_sleep os n
perform os (get_quantums t) = uthread_get_quantums os t
perform os get_tid = uthread_get_tid
perform os get_total_quantums = uthread_get_total_quantums
perform os alarm = alarm_comes os

unfoldable pub run : List (Os × Event) → M (Unit {0})
unfolding perform
run [] = return tt
run ((os, e) ∷ rest) = perform os e >>= λ _. run rest

abbrev pub NotAsleep : Option UThread → Type 0
NotAsleep none = Unit {0}
NotAsleep (some u) = u.status ≢ asleep

-- The calls after which the library's state stays sound: all but the termination of a sleeper.
abbrev pub Allowed : Event → State → Type 0
Allowed (terminate t) s = NotAsleep (thread_of t s.all_threads)
Allowed _ s = Unit {0}

-- Each call of a program is allowed where it is made.
abbrev pub AllAllowed : List (Os × Event) → State → Type 0
AllAllowed [] s = Unit {0}
AllAllowed ((os, e) ∷ rest) s =
    Allowed e s × ((c : Control) (t : State) → perform os e s ≡ ok c t → AllAllowed rest t)
