-- ===== src/Uthreads/Samples/Wakes.antt =====
-- The theorems on blocked alarms and forgotten sleepers, at concrete states.
use user_level_threads_libra.Prelude.{◌≡◌, refl, true, some, pos}
use user_level_threads_libra.Uthreads.State.{
  State, UThread, zeroed, success, running, in_sleep, asleep, update,
}
use user_level_threads_libra.Uthreads.Process.{ok, undefined}
use user_level_threads_libra.Uthreads.Scheduler.{returns, timer_handler, jump}
use user_level_threads_libra.Uthreads.Api.{uthread_terminate}
use user_level_threads_libra.Uthreads.Invariant.Defs.{Returns}
use user_level_threads_libra.Uthreads.Defects.Masks.{Seen, jump-Seen}
use user_level_threads_libra.Uthreads.Defects.Sleepers.{forgotten, uthread_terminate-asleep}
use user_level_threads_libra.Uthreads.Samples.{linux, linux-IsHealthy, napping}

-- Thread 2 of `napping` as it was saved in `uthread_sleep`, in a state in which it is next.
abbrev sleeper : UThread
sleeper = record {
  tid = 2;
  status = running;
  env = record { point = in_sleep; mask = true };
  quantums = 1;
}

abbrev waking : State
waking = record zeroed { all_threads = update zeroed.all_threads 2 (some sleeper); running_tid = 2 }

jump-Seen_example : Returns (Seen in_sleep) (jump linux waking)
jump-Seen_example = jump-Seen linux waking sleeper linux-IsHealthy refl refl

uthread_terminate-asleep_example :
    (uthread_terminate linux (pos 2) napping ≡ ok (returns success) (forgotten 2 napping))
    × (timer_handler linux (forgotten 2 napping) ≡ undefined)
unfolding napping
uthread_terminate-asleep_example =
    uthread_terminate-asleep linux napping 1 (record sleeper { status = asleep }) linux-IsHealthy
      refl refl refl
