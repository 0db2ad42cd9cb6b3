-- ===== src/Clients/Separate/Samples.antt =====
-- Concrete runs of the tests.
use user_level_threads_libra.Prelude.{
  ℕ, ◌+◌, ◌==◌, ◌≡◌, refl, if◌then◌else◌, Option, none, some, List, [], ◌∷◌, ◌++◌, ℤ, pos,
  insert_sorted, erase_found,
}
use user_level_threads_libra.Effects.{Result, ok, exited, undefined, Ensures}
use user_level_threads_libra.Uthreads.State.{Os}
use user_level_threads_libra.Uthreads.Scheduler.{update_sleepers_from}
use user_level_threads_libra.Uthreads.Api.{uthread_init, insert_ids, emplace_sorted}
use user_level_threads_libra.Uthreads.Program.{perform}
use user_level_threads_libra.Uthreads.Invariant.Defs.{Inv}
use user_level_threads_libra.Clients.Code.{Code}
use user_level_threads_libra.Clients.World.{World, Tick, works, expires, run, run_from}
use user_level_threads_libra.Clients.Separate.{
  basic_functionality_process, thread_scheduling_process, thread_execution_order,
}
use user_level_threads_libra.Clients.Separate.Passes.{
  linux, address, code_at, steps, Passes, expired, basic_functionality-Passes,
  thread_scheduling-Passes,
}
use user_level_threads_libra.Clients.Separate.Safety.{thread_execution_order-Inv}
use user_level_threads_libra.Clients.Separate.Stress.{
  Choice, stress_f, random_f, stress_and_creation_order, random_thread_operations, do_operation,
  operations, sort,
}
use user_level_threads_libra.Clients.Separate.Stress.Safety.{
  stress_and_creation_order-Inv, random_thread_operations-Inv,
}

basic_functionality-Passes_example : Passes (
    run code_at
      (steps 4096 23 ++ steps 4096 7 ++ expired 4096 (steps 4096 60 ++ []))
      (basic_functionality_process address))
basic_functionality-Passes_example = basic_functionality-Passes 4096 7 []

thread_scheduling-Passes_example : Passes (
    run code_at
      (steps 4096 11
        ++ steps 4096 3
        ++ expired 4096 (steps 4096 8 ++ steps 4096 6 ++ expired 4096 (steps 4096 20 ++ [])))
      (thread_scheduling_process address))
thread_scheduling-Passes_example = thread_scheduling-Passes 4096 3 6 []

-- The main thread waits twice, and lets the others run.
abbrev schedule : List (Os × Tick)
schedule =
    (linux 4096, works) ∷ (linux 4096, expires) ∷ (linux 4096, works) ∷ (linux 4096, expires) ∷ []

thread_execution_order-Inv_example :
    Ensures
      (λ _ w. Inv w.lib)
      (run_from code_at (thread_execution_order address (linux 4096)) schedule)
thread_execution_order-Inv_example =
    thread_execution_order-Inv code_at (λ a. a) address refl (linux 4096) schedule
      (λ f. refl, (λ f. refl, (λ f. refl, (λ f. refl, tt))))

abbrev only : Code → ℕ → Option Code
only c a = if a == 7 then some c else none

stress_and_creation_order-Inv_example :
    Ensures
      (λ _ w. Inv w.lib)
      (run_from (only stress_f) (stress_and_creation_order (λ tids. tids) 7 (linux 4096)) schedule)
stress_and_creation_order-Inv_example =
    stress_and_creation_order-Inv (only stress_f) (λ a. a) 7 (λ tids. tids) (linux 4096) schedule
      refl (λ f. refl, (λ f. refl, (λ f. refl, (λ f. refl, tt))))

-- Thread operations of every kind, on the first of the active threads.
abbrev rand : ℕ → Choice
rand i = record { option = i + 1; position = λ size. 0 }

random_thread_operations-Inv_example :
    Ensures
      (λ _ w. Inv w.lib)
      (run_from (only random_f) (random_thread_operations rand 7 (linux 4096)) schedule)
random_thread_operations-Inv_example =
    random_thread_operations-Inv (only random_f) (λ a. a) 7 rand (linux 4096) schedule refl
      (λ f. refl, (λ f. refl, (λ f. refl, (λ f. refl, tt))))

-- What the process is after a run: its expectations that failed, and its exit code or its running thread.
abbrev outcome : Result World (Unit {0}) → Option (ℕ × ℤ)
outcome (ok a w) = some (w.failures, pos w.lib.running_tid)
outcome (exited n w) = some (w.failures, n)
outcome undefined = none

random_operations_twenty :
    outcome
      (run_from (only random_f) (random_thread_operations rand 7 (linux 4096)) (steps 4096 20))
    ≡ some (0, pos 0)
unfolding random_thread_operations run_from uthread_init insert_ids insert_sorted emplace_sorted
    steps perform update_sleepers_from erase_found do_operation operations
random_operations_twenty = refl

sort_three : sort (3 ∷ 1 ∷ 2 ∷ []) ≡ 1 ∷ 2 ∷ 3 ∷ []
unfolding sort
sort_three = refl
