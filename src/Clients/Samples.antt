-- ===== src/Clients/Samples.antt =====
-- Concrete runs of the programs.
use user_level_threads_libra.Prelude.{
  ℕ, ◌==◌, ◌≡◌, refl, true, false, if◌then◌else◌, Option, none, some, List, [], ◌∷◌, ltb,
  insert_sorted,
}
use user_level_threads_libra.Effects.{Result, ok, exited, undefined, Ensures}
use user_level_threads_libra.Uthreads.State.{Os, micro_to_sec}
use user_level_threads_libra.Uthreads.Invariant.Defs.{Inv}
use user_level_threads_libra.Uthreads.Api.{uthread_init, insert_ids, emplace_sorted}
use user_level_threads_libra.Uthreads.Scheduler.{update_sleepers_from}
use user_level_threads_libra.Uthreads.Program.{perform}
use user_level_threads_libra.Clients.Code.{Code, for_range}
use user_level_threads_libra.Clients.World.{World, Tick, works, expires, run_from}
use user_level_threads_libra.Clients.Main.{
  ThreadFunction, regular_block_resume, sleeping, block_and_sleep, sleep_and_block, block_itself,
  terminating_itself, first, second, third, fourth, switch_thread, code_of, sleep_then_block,
  run_test, main,
}
use user_level_threads_libra.Clients.Main.Safety.{IsLoaded, run_test-Inv}

abbrev linux : Os
linux = record {
  sigemptyset_fails = false;
  sigaddset_fails = false;
  sigprocmask_fails = λ _. false;
  sigaction_fails = false;
  setitimer_fails = λ v. if ltb v.value.usec micro_to_sec then false else true;
  new_stack = some 4096;
  translate_address = λ a. a;
}

abbrev address : ThreadFunction → ℕ
address regular_block_resume = 1
address sleeping = 2
address block_and_sleep = 3
address sleep_and_block = 4
address block_itself = 5
address terminating_itself = 6
address first = 7
address second = 8
address third = 9
address fourth = 10
address switch_thread = 11

abbrev functions : List ThreadFunction
functions =
    regular_block_resume ∷ sleeping ∷ block_and_sleep ∷ sleep_and_block ∷ block_itself
    ∷ terminating_itself ∷ first ∷ second ∷ third ∷ fourth ∷ switch_thread ∷ []

abbrev find : ℕ → List ThreadFunction → Option Code
find a [] = none
find a (f ∷ fs) = let rest = find a fs in if address f == a then some (code_of f) else rest

abbrev code_at : ℕ → Option Code
code_at a = find a functions

code_at-IsLoaded : IsLoaded code_at (λ a. a) address
code_at-IsLoaded regular_block_resume = refl
code_at-IsLoaded sleeping = refl
code_at-IsLoaded block_and_sleep = refl
code_at-IsLoaded sleep_and_block = refl
code_at-IsLoaded block_itself = refl
code_at-IsLoaded terminating_itself = refl
code_at-IsLoaded first = refl
code_at-IsLoaded second = refl
code_at-IsLoaded third = refl
code_at-IsLoaded fourth = refl
code_at-IsLoaded switch_thread = refl

-- `main` starts the thread, and is interrupted; the thread goes to sleep.
abbrev schedule : List (Os × Tick)
schedule = (linux, works) ∷ (linux, expires) ∷ (linux, works) ∷ (linux, works) ∷ []

abbrev who : Result World (Unit {0}) → Option ℕ
who (ok a w) = some w.lib.running_tid
who (exited n w) = none
who undefined = none

main_again : who (run_from code_at (main address linux) schedule) ≡ some 0
unfolding main run_from uthread_init insert_ids insert_sorted perform update_sleepers_from
    emplace_sorted code_of for_range
main_again = refl

run_test-Inv_example :
    Ensures (λ _ w. Inv w.lib) (run_from code_at (run_test address linux sleep_then_block) schedule)
run_test-Inv_example =
    run_test-Inv code_at (λ a. a) address code_at-IsLoaded linux sleep_then_block schedule tt
      (λ f. refl, (λ f. refl, (λ f. refl, (λ f. refl, tt))))
