-- ===== src/Clients/Separate/Passes.antt =====
-- TEST(Test1) and TEST(Test2): runs in which the timer expires in a waiting loop of the main thread.
use user_level_threads_libra.Prelude.{
  ℕ, zero, suc, ◌==◌, ◌≡◌, refl, sym, subst, true, false, if◌then◌else◌, Option, none, some, List,
  [], ◌∷◌, ◌++◌, ℤ, pos, ltb, insert_sorted, erase_found,
}
use user_level_threads_libra.Effects.{Result, ok, exited, undefined}
use user_level_threads_libra.Uthreads.State.{Os, micro_to_sec}
use user_level_threads_libra.Uthreads.Scheduler.{update_sleepers_from}
use user_level_threads_libra.Uthreads.Api.{uthread_init, insert_ids, emplace_sorted}
use user_level_threads_libra.Uthreads.Program.{perform}
use user_level_threads_libra.Clients.Code.{Code, unroll}
use user_level_threads_libra.Clients.World.{World, Tick, loaded, tick, works, expires, run}
use user_level_threads_libra.Clients.Separate.{
  ThreadFunction, t1, f, g, t, code_of, basic_functionality_process, thread_scheduling_process,
}

-- A system on which nothing fails, with room for a stack at `stack`.
abbrev pub linux : ℕ → Os
linux stack = record {
  sigemptyset_fails = false;
  sigaddset_fails = false;
  sigprocmask_fails = λ _. false;
  sigaction_fails = false;
  setitimer_fails = λ v. if ltb v.value.usec micro_to_sec then false else true;
  new_stack = some stack;
  translate_address = λ a. a;
}

abbrev pub address : ThreadFunction → ℕ
address t1 = 1
address f = 2
address g = 3
address t = 4

abbrev pub code_at : ℕ → Option Code
code_at a =
    if a == 1
    then some (code_of t1)
    else (if a == 2
        then some (code_of f)
        else (if a == 3 then some (code_of g) else (if a == 4 then some (code_of t) else none)))

-- `n` steps without an alarm.
unfoldable pub steps : ℕ → ℕ → List (Os × Tick)
steps stack zero = []
steps stack (suc n) = (linux stack, works) ∷ steps stack n

-- The process exits as `ASSERT_EXIT` asks for, and no expectation was not met.
abbrev pub Passes : Result World (Unit {0}) → Type 0
Passes (ok a w) = ⊥
Passes (exited n w) = (n ≡ pos 0) × (w.failures ≡ 0)
Passes undefined = ⊥

unfoldable world_of : Result World (Unit {0}) → World
world_of (ok a w) = w
world_of (exited n w) = w
world_of undefined = loaded

abbrev pub Frames : Type 0
Frames = ℕ → Option (ℤ → Code)

-- A loop that waits, in two steps a round: to ask, and to compare. Neither the stacks nor anything else that
-- differs from round to round matters to what comes after.
module _ (stack : ℕ) (rest : List (Os × Tick)) (asks compares : Frames → World)
    (next : Frames → Frames)
    (ask_tick : (s : Frames) → tick code_at (linux stack) works (asks s) ≡ ok tt (compares s))
    (compare_tick : (s : Frames)
      → tick code_at (linux stack) works (compares s) ≡ ok tt (asks (next s)))
    (asks-Passes : (s : Frames) → Passes (run code_at rest (asks s)))
    (compares-Passes : (s : Frames) → Passes (run code_at rest (compares s))) where
  run-tick :
      (k : Tick) (w v : World) (ts : List (Os × Tick))
      → tick code_at (linux stack) k w ≡ ok tt v
      → run code_at ((linux stack, k) ∷ ts) w ≡ run code_at ts v
  unfolding run
  run-tick k w v ts e = rw (e, run) refl

  loop-Passes :
      (m : ℕ) (s : Frames)
      → Passes (run code_at (steps stack m ++ rest) (asks s))
        × Passes (run code_at (steps stack m ++ rest) (compares s))
  unfolding run steps
  loop-Passes zero s = (asks-Passes s, compares-Passes s)
  loop-Passes (suc m) s = (
    subst Passes (sym (run-tick works (asks s) (compares s) (steps stack m ++ rest) (ask_tick s)))
        (loop-Passes m s).1,
    subst Passes
        (sym (run-tick works (compares s) (asks (next s)) (steps stack m ++ rest) (compare_tick s)))
        (loop-Passes m (next s)).0,
  )

module _ (stack : ℕ) where
  abbrev one_step : World → World
  one_step w = world_of (run code_at (steps stack 1) w)

  -- The main thread of Test1 at the loop of threadQuantumSleep, and one step later.
  unfoldable basic_asks : Frames → World
  unfolding basic_functionality_process world_of run steps code_of insert_ids insert_sorted
      emplace_sorted update_sleepers_from uthread_init perform erase_found unroll
  basic_asks s =
      record (world_of (run code_at (steps stack 23) (basic_functionality_process address))) {
        frames = s;
      }

  unfoldable basic_compares : Frames → World
  unfolding basic_asks world_of run steps code_of insert_ids insert_sorted emplace_sorted
      update_sleepers_from uthread_init perform erase_found unroll
  basic_compares s = one_step (basic_asks s)

  abbrev pub expired : List (Os × Tick) → List (Os × Tick)
  expired rest = (linux stack, expires) ∷ rest

  basic-Passes :
      (m : ℕ) (s : Frames) (rest : List (Os × Tick))
      → Passes (run code_at (steps stack m ++ expired (steps stack 60 ++ rest)) (basic_asks s))
  unfolding basic_asks basic_compares tick world_of run steps code_of insert_ids insert_sorted
      emplace_sorted update_sleepers_from uthread_init perform erase_found unroll
  basic-Passes m s rest =
      (loop-Passes stack (expired (steps stack 60 ++ rest)) basic_asks basic_compares
        (λ s. (one_step (basic_compares s)).frames) (λ s. refl) (λ s. refl) (λ s. (refl, refl))
        (λ s. (refl, refl)) m s).0

  -- TEST(Test1, BasicFunctionality) passes, however long the main thread waits in threadQuantumSleep until
  -- the timer expires, if it does not expire before that wait and not again in the 60 steps that follow its
  -- expiry there, and nothing fails in the system.
  pub basic_functionality-Passes :
      (m : ℕ) (rest : List (Os × Tick))
      → Passes (
          run code_at
            (steps stack 23 ++ steps stack m ++ expired (steps stack 60 ++ rest))
            (basic_functionality_process address))
  unfolding basic_asks basic_functionality_process world_of run steps code_of insert_ids
      insert_sorted emplace_sorted update_sleepers_from uthread_init perform erase_found unroll
  basic_functionality-Passes m rest =
      basic-Passes m
        (world_of (run code_at (steps stack 23) (basic_functionality_process address))).frames rest

  -- The main thread of Test2 at its first and at its second wait.
  unfoldable scheduling_asks : Frames → World
  unfolding thread_scheduling_process world_of run steps code_of insert_ids insert_sorted
      emplace_sorted update_sleepers_from uthread_init perform erase_found unroll
  scheduling_asks s =
      record (world_of (run code_at (steps stack 11) (thread_scheduling_process address))) {
        frames = s;
      }

  unfoldable scheduling_compares : Frames → World
  unfolding scheduling_asks world_of run steps code_of insert_ids insert_sorted emplace_sorted
      update_sleepers_from uthread_init perform erase_found unroll
  scheduling_compares s = one_step (scheduling_asks s)

  unfoldable again_asks : Frames → World
  unfolding scheduling_asks world_of run steps code_of insert_ids insert_sorted emplace_sorted
      update_sleepers_from uthread_init perform erase_found unroll
  again_asks s = record (world_of (run code_at (expired (steps stack 8)) (scheduling_asks s))) {
    frames = s;
  }

  unfoldable again_compares : Frames → World
  unfolding again_asks world_of run steps code_of insert_ids insert_sorted emplace_sorted
      update_sleepers_from uthread_init perform erase_found unroll
  again_compares s = one_step (again_asks s)

  again-Passes :
      (m : ℕ) (s : Frames) (rest : List (Os × Tick))
      → Passes (run code_at (steps stack m ++ expired (steps stack 20 ++ rest)) (again_asks s))
        × Passes
            (run code_at (steps stack m ++ expired (steps stack 20 ++ rest)) (again_compares s))
  unfolding again_asks again_compares tick world_of run steps code_of insert_ids insert_sorted
      emplace_sorted update_sleepers_from uthread_init perform erase_found unroll
  again-Passes m s rest =
      loop-Passes stack (expired (steps stack 20 ++ rest)) again_asks again_compares
        (λ s. (one_step (again_compares s)).frames) (λ s. refl) (λ s. refl) (λ s. (refl, refl))
        (λ s. (refl, refl)) m s

  scheduling-Passes :
      (m n : ℕ) (s : Frames) (rest : List (Os × Tick))
      → Passes (
          run code_at
            (steps stack m
              ++ expired (steps stack 8 ++ steps stack n ++ expired (steps stack 20 ++ rest)))
            (scheduling_asks s))
  unfolding scheduling_asks scheduling_compares again_asks again_compares tick world_of run steps
      code_of insert_ids insert_sorted emplace_sorted update_sleepers_from uthread_init perform
      erase_found unroll
  scheduling-Passes m n s rest =
      (loop-Passes stack
        (expired (steps stack 8 ++ steps stack n ++ expired (steps stack 20 ++ rest)))
        scheduling_asks scheduling_compares (λ s. (one_step (scheduling_compares s)).frames)
        (λ s. refl) (λ s. refl)
        (λ s.
          (again-Passes n
            (world_of (run code_at (expired (steps stack 8)) (scheduling_asks s))).frames rest).0)
        (λ s.
          (again-Passes n
            (world_of (run code_at (expired (steps stack 8)) (scheduling_compares s))).frames
            rest).1)
        m s).0

  -- TEST(Test2, ThreadSchedulingWithTermination) passes, however long the main thread waits in its two calls
  -- of threadQuantumSleep until the timer expires, if it expires there only, and nothing fails in the system.
  pub thread_scheduling-Passes :
      (m n : ℕ) (rest : List (Os × Tick))
      → Passes (
          run code_at
            (steps stack 11
              ++ steps stack m
              ++ expired (steps stack 8 ++ steps stack n ++ expired (steps stack 20 ++ rest)))
            (thread_scheduling_process address))
  unfolding scheduling_asks thread_scheduling_process world_of run steps code_of insert_ids
      insert_sorted emplace_sorted update_sleepers_from uthread_init perform erase_found unroll
  thread_scheduling-Passes m n rest =
      scheduling-Passes m n
        (world_of (run code_at (steps stack 11) (thread_scheduling_process address))).frames rest
