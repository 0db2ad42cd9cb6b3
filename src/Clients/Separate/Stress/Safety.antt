-- ===== src/Clients/Separate/Stress/Safety.antt =====
-- TEST(Test4) and TEST(Test6) in every schedule. None of their threads sleeps.
use user_level_threads_libra.Prelude.{
  ℕ, zero, suc, ◌+◌, ◌-◌, ◌==◌, ◌&&◌, ◌||◌, ◌≡◌, refl, subst, false, Option, none, some, List, [],
  ◌∷◌, length, ℤ, pos, inl, inr, ltb,
}
use user_level_threads_libra.Effects.{Ensures, Ensures-mono}
use user_level_threads_libra.Uthreads.State.{Os, max_thread_num}
use user_level_threads_libra.Uthreads.Program.{spawn, terminate}
use user_level_threads_libra.Uthreads.Invariant.Defs.{Inv}
use user_level_threads_libra.Clients.Code.{Code, result}
use user_level_threads_libra.Clients.World.{Tick, initialize, loaded, run_from, Translates}
use user_level_threads_libra.Clients.World.Good.{Known, Good, AllGood, for_range-Good, if-Good}
use user_level_threads_libra.Clients.World.Frames.{Sound}
use user_level_threads_libra.Clients.World.Safety.{run_from-Sound, initialize-Sound}
use user_level_threads_libra.Clients.Separate.{expect_eq, assert_exit}
use user_level_threads_libra.Clients.Separate.Safety.{initialize_with_priorities-Good}
use user_level_threads_libra.Clients.Separate.Stress.{
  stress_f, random_f, for_each, sort, threads_to_remove, test4, stress_and_creation_order, Choice,
  operate_on, get_random_active_thread, do_operation, operations, test6, random_thread_operations,
  spawn_count,
}

module _ (code_at : ℕ → Option Code) (translate : ℕ → ℕ) (address : ℕ) where
  abbrev Begins : ℕ → Type 0
  Begins pc = pc ≡ translate address

  abbrev IsGood : ℕ → Code → Type 0
  IsGood = Good false code_at translate Begins

  abbrev IsLoaded : Code → Type 0
  IsLoaded c = code_at (translate address) ≡ some c

  starts : (c : Code) → IsLoaded c → Known false code_at translate Begins (translate address)
  starts c e = (refl, c, e)

  -- A program that starts `c` only.
  program-Inv :
      (c : Code) (is_loaded : IsLoaded c) (good : (j : ℕ) → IsGood j c) (k : ℤ → Code)
      → ((v : ℤ) → IsGood 0 (k v))
      → (os : Os) (ts : List (Os × Tick)) → Translates translate ts
      → Ensures (λ _ w. Inv w.lib) (run_from code_at (initialize os (pos 1) k loaded) ts)
  program-Inv c is_loaded good k main_good os ts same =
      Ensures-mono (λ _. Sound false code_at translate Begins all) (λ _ w. Inv w.lib) _
        (run_from-Sound false code_at translate Begins all (initialize os (pos 1) k loaded) ts same
          (initialize-Sound false code_at translate Begins all os 0 k main_good))
        (λ _ w h. h.inv)
    where
      all : AllGood false code_at translate Begins
      all pc j d l at = let found : c ≡ d = cc is_loaded in subst (IsGood j) found (good j)

  for_each-Good :
      (tids : List ℕ) (body : ℕ → Code → Code) (k : Code)
      → ((j : ℕ) (k : Code) → IsGood 0 k → IsGood 0 (body j k))
      → IsGood 0 k
      → IsGood 0 (for_each tids body k)
  unfolding for_each
  for_each-Good [] body k b g = g
  for_each-Good (tid ∷ rest) body k b g =
      b tid (for_each rest body k) (for_each-Good rest body k b g)

  test4-Good :
      (shuffle : List ℕ → List ℕ) (v : ℤ) → IsLoaded stress_f → IsGood 0 (test4 shuffle address v)
  unfolding test4
  test4-Good shuffle v l =
      let s = starts stress_f l in
      initialize_with_priorities-Good code_at translate Begins v _ (
        for_range-Good false code_at translate Begins 0 spawn_count 1
          (λ i. expect_eq (result (spawn address)) (pos i)) _ (λ i k g. (s, λ n. g))
          (
            tt,
            tt,
            λ before. (
              s,
              λ n after.
                  for_each-Good (threads_to_remove shuffle)
                    (λ tid. expect_eq (result (terminate (pos tid))) (pos 0))
                    (for_each (sort (threads_to_remove shuffle))
                      (λ tid. expect_eq (result (spawn address)) (pos tid)) assert_exit)
                    (λ i k g. inr (refl, λ n. g))
                    (for_each-Good (sort (threads_to_remove shuffle))
                      (λ tid. expect_eq (result (spawn address)) (pos tid)) assert_exit
                      (λ i k g. (s, λ n. g)) (inl (inr refl))),
            ),
          ))

  operate_on-Good :
      (option : ℕ) (tid : ℤ) (active : List ℤ) (k : List ℤ → Code)
      → ((a : List ℤ) → IsGood 0 (k a))
      → IsGood 0 (operate_on option tid active k)
  operate_on-Good option tid active k g =
      if-Good false code_at translate Begins 0 (option == 3) _ _ (inr (refl, λ n. g _)) (
        if-Good false code_at translate Begins 0 (option == 4) _ _ (λ n. g active)
          (if-Good false code_at translate Begins 0 (option == 5) _ _ (λ n. g active) (g active)))

  do_operation-Good :
      (c : Choice) (active : List ℤ) (k : List ℤ → Code)
      → IsLoaded random_f
      → ((a : List ℤ) → IsGood 0 (k a))
      → IsGood 0 (do_operation c address active k)
  unfolding do_operation
  do_operation-Good c active k l g =
      if-Good false code_at translate Begins 0
        (length active == 0 || (c.option == 1 && ltb (length active) (max_thread_num - 1))) _ _
        (starts random_f l, λ tid. g _)
        (elim (get_random_active_thread c active)
          as (λ o.
            IsGood 0
              (elim o [ none ↦ Code.aborts | some tid ↦ operate_on c.option tid active k ])) [
                | none ↦ tt
                | some tid ↦ operate_on-Good c.option tid active k g
              ])

  operations-Good :
      (rand : ℕ → Choice) (n i : ℕ) (active : List ℤ) (k : Code)
      → IsLoaded random_f
      → IsGood 0 k
      → IsGood 0 (operations rand address n i active k)
  unfolding operations
  operations-Good rand zero i active k l g = g
  operations-Good rand (suc n) i active k l g =
      do_operation-Good (rand i) active (λ a. operations rand address n (i + 1) a k) l
        (λ a. operations-Good rand n (i + 1) a k l g)

  test6-Good : (rand : ℕ → Choice) (v : ℤ) → IsLoaded random_f → IsGood 0 (test6 rand address v)
  unfolding test6
  test6-Good rand v l =
      initialize_with_priorities-Good code_at translate Begins v _
        (operations-Good rand 1000 0 [] assert_exit l (inl (inr refl)))

  -- Test4 of tests_to_be_ran_separately.cpp never runs into undefined behaviour, whatever the shuffle is, if
  -- the alarms are handled between the steps of its threads, none inside a call of the library: in whatever
  -- order those steps and alarms follow one another and whichever system calls fail, if the function of its
  -- threads is loaded and the translation of addresses stays the same. Unless the process exits, the invariant
  -- of the library holds after it.
  pub stress_and_creation_order-Inv :
      (shuffle : List ℕ → List ℕ) (os : Os) (ts : List (Os × Tick))
      → code_at (translate address) ≡ some stress_f
      → Translates translate ts
      → Ensures
          (λ _ w. Inv w.lib)
          (run_from code_at (stress_and_creation_order shuffle address os) ts)
  unfolding stress_and_creation_order stress_f
  stress_and_creation_order-Inv shuffle os ts l same =
      program-Inv stress_f l (λ j v. tt) (test4 shuffle address) (λ v. test4-Good shuffle v l) os ts
        same

  -- Test6 of tests_to_be_ran_separately.cpp never runs into undefined behaviour, whatever its random numbers
  -- are, if the alarms are handled between the steps of its threads, none inside a call of the library: in
  -- whatever order those steps and alarms follow one another and whichever system calls fail, if the function of
  -- its threads is loaded and the translation of addresses stays the same. Unless the process exits, the
  -- invariant of the library holds after it.
  pub random_thread_operations-Inv :
      (rand : ℕ → Choice) (os : Os) (ts : List (Os × Tick))
      → code_at (translate address) ≡ some random_f
      → Translates translate ts
      → Ensures (λ _ w. Inv w.lib) (run_from code_at (random_thread_operations rand address os) ts)
  unfolding random_thread_operations random_f
  random_thread_operations-Inv rand os ts l same =
      program-Inv random_f l (λ j. tt) (test6 rand address) (λ v. test6-Good rand v l) os ts same
