-- ===== src/Clients/Main/Safety.antt =====
-- The tests of main.cpp whose threads end only themselves.
use user_level_threads_libra.Prelude.{
  true, ℕ, ◌==◌, ◌≡◌, refl, subst, if◌then◌else◌, Option, some, List, [], ◌∷◌, pos, inl, inr,
}
use user_level_threads_libra.Effects.{Ensures, Ensures-mono}
use user_level_threads_libra.Uthreads.State.{Os}
use user_level_threads_libra.Uthreads.Program.{resume}
use user_level_threads_libra.Uthreads.Invariant.Defs.{Inv}
use user_level_threads_libra.Clients.Code.{Code, printf, call}
use user_level_threads_libra.Clients.World.{Tick, after_init, run_from, Translates}
use user_level_threads_libra.Clients.World.Good.{Good, AllGood, for_range-Good, if-Good}
use user_level_threads_libra.Clients.World.Frames.{Sound}
use user_level_threads_libra.Clients.World.Safety.{run_from-Sound, after_init-Sound}
use user_level_threads_libra.Clients.Main.{
  ThreadFunction, regular_block_resume, sleeping, block_and_sleep, sleep_and_block, block_itself,
  terminating_itself, first, second, third, fourth, switch_thread, code_of, Test,
  thread_block_itself, thread_terminate_itself, sleep_then_block, block_then_sleep, only_sleep,
  block_then_resume, switch_4_threads, switch_to_thread, spawn_of, run_test, print_main_running,
  call_at, block_itself_round, main_running_round, sleep_and_block_round, block_and_sleep_round,
  block_resume_round,
}

-- The thread ends by `uthread_terminate(uthread_get_tid())`.
abbrev pub EndsItself : ThreadFunction → Type 0
EndsItself regular_block_resume = Unit {0}
EndsItself sleeping = Unit {0}
EndsItself block_and_sleep = Unit {0}
EndsItself sleep_and_block = Unit {0}
EndsItself block_itself = Unit {0}
EndsItself terminating_itself = ⊥
EndsItself first = ⊥
EndsItself second = ⊥
EndsItself third = ⊥
EndsItself fourth = ⊥
EndsItself switch_thread = Unit {0}

module _ (code_at : ℕ → Option Code) (translate : ℕ → ℕ) where
  code_of-Good :
      (L : ℕ → Type 0) (t : ℕ) (f : ThreadFunction)
      → EndsItself f
      → Good true code_at translate L t (code_of f)
  unfolding code_of
  code_of-Good L t regular_block_resume e =
      for_range-Good true code_at translate L t 100_000 0 _ _ (λ i k g. g) (λ v. inl (inl refl))
  code_of-Good L t sleeping e = (
    refl,
    λ v. for_range-Good true code_at translate L t 1000 0 _ _ (λ i k g. g) (λ v. inl (inl refl)),
  )
  code_of-Good L t block_and_sleep e = (
    refl,
    λ v. for_range-Good true code_at translate L t 10_000 0 _ _ (λ i k g. g) (λ v. inl (inl refl)),
  )
  code_of-Good L t sleep_and_block e = (
    refl,
    λ v. for_range-Good true code_at translate L t 10_000 0 _ _ (λ i k g. g) (λ v. inl (inl refl)),
  )
  code_of-Good L t block_itself e =
      for_range-Good true code_at translate L t 10_000 0 block_itself_round _
        (λ i k g. if-Good true code_at translate L t (i == 10) _ _ (λ v. g) g) (λ v. inl (inl refl))
  code_of-Good L t switch_thread e =
      for_range-Good true code_at translate L t 100_000 0 _ _ (λ i k g. g) (λ v. inl (inl refl))
  code_of-Good L t terminating_itself e = absurd e
  code_of-Good L t first e = absurd e
  code_of-Good L t second e = absurd e
  code_of-Good L t third e = absurd e
  code_of-Good L t fourth e = absurd e

-- The thread that the test starts.
abbrev pub started : Test → ThreadFunction
started thread_block_itself = block_itself
started thread_terminate_itself = terminating_itself
started sleep_then_block = sleep_and_block
started block_then_sleep = block_and_sleep
started only_sleep = sleeping
started block_then_resume = regular_block_resume
started switch_4_threads = first
started switch_to_thread = switch_thread

-- Where the functions are, behind `translate_address`.
abbrev pub IsLoaded :
    (code_at : ℕ → Option Code) (translate : ℕ → ℕ) (address : ThreadFunction → ℕ) → Type 0
IsLoaded code_at translate address =
    (f : ThreadFunction) → code_at (translate (address f)) ≡ some (code_of f)

module _ (code_at : ℕ → Option Code) (translate : ℕ → ℕ) (address : ThreadFunction → ℕ)
    (is_loaded : IsLoaded code_at translate address) where
  abbrev Begins : ThreadFunction → ℕ → Type 0
  Begins f pc = pc ≡ translate (address f)

  Begins-AllGood : (f : ThreadFunction) → EndsItself f → AllGood true code_at translate (Begins f)
  Begins-AllGood f e pc j c l at =
      let found : code_of f ≡ c = cc (is_loaded f) in
      subst (Good true code_at translate (Begins f) j) found
        (code_of-Good code_at translate (Begins f) j f e)

  begun_with-Sound :
      (os : Os) (f : ThreadFunction) (body : Code) (ts : List (Os × Tick))
      → EndsItself f
      → Good true code_at translate (Begins f) 0 body
      → Translates translate ts
      → Ensures
          (λ _ w. Inv w.lib)
          (run_from code_at (after_init os (pos 1) (spawn_of address os f body)) ts)
  begun_with-Sound os f body ts e g same =
      let all = Begins-AllGood f e in
      Ensures-mono (λ _. Sound true code_at translate (Begins f) all) (λ _ w. Inv w.lib) _
        (run_from-Sound true code_at translate (Begins f) all
          (after_init os (pos 1) (spawn_of address os f body)) ts same
          (after_init-Sound true code_at translate (Begins f) all os 0 (spawn_of address os f body)
            ((refl, code_of f, is_loaded f), λ v. g)))
        (λ _ w h. h.inv)

  -- Each test of main.cpp whose thread ends itself by `uthread_terminate(uthread_get_tid())` (all but
  -- test_thread_terminate_itself and test_switch_4_threads) never runs into undefined behaviour, if the
  -- alarms are handled between the steps of its threads, none inside a call of the library: in whatever order
  -- those steps and alarms follow one another and whichever system calls fail, if its functions are loaded and
  -- the translation of addresses stays the same. Unless the process exits, the invariant of the library holds
  -- after it.
  pub run_test-Inv :
      (os : Os) (t : Test) (ts : List (Os × Tick))
      → EndsItself (started t)
      → Translates translate ts
      → Ensures (λ _ w. Inv w.lib) (run_from code_at (run_test address os t) ts)
  unfolding run_test
  run_test-Inv os thread_block_itself ts e same =
      begun_with-Sound os block_itself _ ts e
        (for_range-Good true code_at translate (Begins block_itself) 0 100_000 0 main_running_round
          _ (λ i k g v. g) (λ v w. inl (inr refl)))
        same
  run_test-Inv os sleep_then_block ts e same =
      begun_with-Sound os sleep_and_block _ ts e
        (for_range-Good true code_at translate (Begins sleep_and_block) 0 1_000_000 0
          sleep_and_block_round _
          (λ i k g.
            if-Good true code_at translate (Begins sleep_and_block) 0 (i == 5000) _ _
              (λ v. later i k g) (later i k g))
          (tt, (tt, tt), λ v w. inl (inr refl)))
        same
    where
      later :
          (i : ℕ) (k : Code)
          → Good true code_at translate (Begins sleep_and_block) 0 k
          → Good true code_at translate (Begins sleep_and_block) 0 (
              if i == 10_000
              then call (resume (pos 1)) (printf "resumed\n" [] (print_main_running k))
              else print_main_running k)
      later i k g =
          if-Good true code_at translate (Begins sleep_and_block) 0 (i == 10_000) _ _ (λ v w. g)
            (λ v. g)
  run_test-Inv os block_then_sleep ts e same =
      begun_with-Sound os block_and_sleep _ ts e
        (for_range-Good true code_at translate (Begins block_and_sleep) 0 100_000 0
          block_and_sleep_round _
          (λ i k g.
            if-Good true code_at translate (Begins block_and_sleep) 0 (i == 5000) _ _
              (λ v. later i k g) (later i k g))
          (tt, tt, λ v w. inl (inr refl)))
        same
    where
      later :
          (i : ℕ) (k : Code)
          → Good true code_at translate (Begins block_and_sleep) 0 k
          → Good true code_at translate
              (Begins block_and_sleep)
              0
              (call_at 99_999 i (resume (pos 1)) (printf "%d\n" (pos i ∷ []) k))
      later i k g =
          if-Good true code_at translate (Begins block_and_sleep) 0 (i == 99_999) _ _ (λ v. g) g
  run_test-Inv os only_sleep ts e same =
      begun_with-Sound os sleeping _ ts e
        (for_range-Good true code_at translate (Begins sleeping) 0 10_000 0
          (λ i. printf "%d\n" (pos i ∷ [])) _ (λ i k g. g) (tt, tt, λ v w. inl (inr refl)))
        same
  run_test-Inv os block_then_resume ts e same =
      begun_with-Sound os regular_block_resume _ ts e
        (λ u.
          for_range-Good true code_at translate (Begins regular_block_resume) 0 100_000 0
            block_resume_round _
            (λ i k g.
              if-Good true code_at translate (Begins regular_block_resume) 0 (i == 300) _ _ (λ v. g)
                g)
            (tt, tt, λ v w. inl (inr refl)))
        same
  run_test-Inv os switch_to_thread ts e same =
      begun_with-Sound os switch_thread _ ts e
        (for_range-Good true code_at translate (Begins switch_thread) 0 100_000 0
          (λ i. printf "%d\n" (pos i ∷ [])) _ (λ i k g. g) (tt, tt, λ v w. inl (inr refl)))
        same
  run_test-Inv os thread_terminate_itself ts e same = absurd e
  run_test-Inv os switch_4_threads ts e same = absurd e
