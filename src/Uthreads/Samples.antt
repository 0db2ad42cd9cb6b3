-- ===== src/Uthreads/Samples.antt =====
-- Concrete states that runs of the library reach.
use user_level_threads_libra.Prelude.{
  ℕ, zero, suc, ◌+◌, ◌*◌, ◌≤◌, ◌<◌, ◌≡◌, ◌≢◌, ◌↔◌, refl, inl, inr, ltb, if◌then◌else◌, Bool, true,
  false, Option, none, some, List, [], ◌∷◌, ◌++◌, ℤ, pos, negsuc, erase_found, insert_sorted, arith,
}
use native.Mathlib.Decide.{dec_lt}
use user_level_threads_libra.Uthreads.State.{
  Os, State, UThread, ITimerVal, How, zeroed, success, failure, micro_to_sec, max_thread_num, ready,
  running, block_thread_zero, in_terminate, in_sleep, at_entry, asleep, address_size, stack_size,
  library_err, input_err, terminated, update,
}
use user_level_threads_libra.Uthreads.Process.{Result, ok, exited, undefined, ◌>>=◌}
use user_level_threads_libra.Uthreads.Scheduler.{
  returns, timer_handler, jump, switch_threads, update_sleepers_from,
}
use user_level_threads_libra.Uthreads.Api.{
  uthread_init, uthread_spawn, uthread_block, uthread_resume, uthread_terminate, new_thread,
}
use user_level_threads_libra.Uthreads.Program.{
  Event, spawn, terminate, block, resume, sleep, get_quantums, get_tid, alarm, perform, run,
  AllAllowed,
}
use user_level_threads_libra.Uthreads.Invariant.Defs.{Ensures, Returns, Inv}
use user_level_threads_libra.Uthreads.Safety.{
  initial, initial-Inv, perform-Inv, run-Inv, uthread_init-Inv,
}
use user_level_threads_libra.Uthreads.Rotation.Spec.{others}
use user_level_threads_libra.Uthreads.Healthy.{IsHealthy}
use user_level_threads_libra.Uthreads.Api.{insert_ids, emplace_sorted}
use user_level_threads_libra.Uthreads.Signals.{quantum_timer}
use user_level_threads_libra.Uthreads.Program.{alarm_comes}
use user_level_threads_libra.Uthreads.Healthy.{quantum_timer_lem}
use user_level_threads_libra.Uthreads.WakeUp.{Sleeps, Queued, expire-Sleeps, expire-Queued}
use user_level_threads_libra.Uthreads.Contract.Init.{uthread_init_lem}
use user_level_threads_libra.Uthreads.Contract.Refusals.{refused, perform-refused}
use user_level_threads_libra.Uthreads.Contract.Spawning.{uthread_spawn_lem}
use user_level_threads_libra.Uthreads.Contract.Resuming.{uthread_block-uthread_resume}
use user_level_threads_libra.Uthreads.Contract.Termination.{Terminates, uthread_terminate_lem}
use user_level_threads_libra.Uthreads.Defects.Masks.{Seen, jump-Seen}
use user_level_threads_libra.Uthreads.Defects.Sleepers.{
  forgotten, deleted, uthread_terminate-asleep,
}
use user_level_threads_libra.Uthreads.RoundRobin.{
  Turned, timer_handler-Turned, expire, expire-first,
}
mod Turns
mod Calls
mod Wakes

-- A system on which nothing fails, with room for a stack at the address 4096.
abbrev pub linux : Os
linux = record {
  sigemptyset_fails = false;
  sigaddset_fails = false;
  sigprocmask_fails = λ _. false;
  sigaction_fails = false;
  setitimer_fails = λ v. if ltb v.value.usec micro_to_sec then false else true;
  new_stack = some 4096;
  translate_address = λ a. a;
}

pub linux-IsHealthy : IsHealthy linux
linux-IsHealthy = record {
  emptyset = refl;
  addset = refl;
  procmask = λ h. refl;
  action = refl;
  itimer = λ v h k. ground arith;
}

-- The state in which a run ends.
abbrev end_of {ℓ} : {A : Type ℓ} → Result State A → State
end_of (ok a s) = s
end_of (exited c s) = s
end_of undefined = zeroed

abbrev pub two_spawns : List (Os × Event)
two_spawns = (linux, spawn 10) ∷ (linux, spawn 20) ∷ []

pub two_spawns-AllAllowed : AllAllowed two_spawns (initial 1000)
two_spawns-AllAllowed = (tt, λ c t e. (tt, λ d r f. tt))

-- The main thread runs, the threads 1 and 2 are ready.
unfoldable pub three : State
unfolding run insert_ids insert_sorted
three = end_of (run two_spawns (initial 1000))

three-queue : three.ready_tids ≡ 1 ∷ 2 ∷ []
unfolding three
three-queue = refl

pub three-Inv : Inv three
unfolding three
three-Inv = run-Inv two_spawns (initial 1000) (initial-Inv 1000) two_spawns-AllAllowed

-- Thread 1 slept for 3 quantums when it ran, and thread 2 for 1.
abbrev naps : List (Os × Event)
naps = (linux, alarm) ∷ (linux, sleep (pos 3)) ∷ (linux, sleep (pos 1)) ∷ []

naps-AllAllowed : AllAllowed naps three
naps-AllAllowed = (tt, λ c t e. (tt, λ d r f. (tt, λ g h i. tt)))

-- The main thread runs, and the threads 1 and 2 sleep.
unfoldable pub napping : State
unfolding three update_sleepers_from emplace_sorted
napping = end_of (run naps three)

napping-sleepers : (napping.sleepers ≡ (1, 1) ∷ (2, 0) ∷ []) × (napping.running_tid ≡ 0)
unfolding napping
napping-sleepers = (refl, refl)

pub napping-Inv : Inv napping
unfolding napping
napping-Inv = run-Inv naps three three-Inv naps-AllAllowed

-- Thread 1 runs.
unfoldable pub first_turn : State
unfolding three update_sleepers_from
first_turn = end_of (run ((linux, alarm) ∷ []) three)
