-- ===== src/Clients/Separate/Safety.antt =====
-- TEST(Test3, ThreadExecutionOrder): its threads end only themselves.
use user_level_threads_libra.Prelude.{
  Bool, false, true, ◌+◌, [], ◌∷◌, ◌&&◌, ℕ, ◌≡◌, refl, subst, Option, some, List, ℤ, pos, inl, inr,
}
use user_level_threads_libra.Effects.{Ensures, Ensures-mono}
use user_level_threads_libra.Uthreads.State.{Os}
use user_level_threads_libra.Uthreads.Invariant.Defs.{Inv}
use user_level_threads_libra.Clients.Code.{Code, equal}
use user_level_threads_libra.Clients.World.{Tick, run_from, Translates}
use user_level_threads_libra.Clients.World.Good.{Known, Good, AllGood, for_range-Good, if-Good}
use user_level_threads_libra.Clients.World.Frames.{Sound}
use user_level_threads_libra.Clients.World.Safety.{run_from-Sound, initialize-Sound}
use user_level_threads_libra.Clients.Separate.{
  ThreadFunction, t, initialize_with_priorities, t_round, order_round, code_of, test3,
  thread_execution_order, expected_quantums_to_tids, expect_quantums_to_tids, assert_exit,
}

pub initialize_with_priorities-Good :
    (code_at : ℕ → Option Code) (translate : ℕ → ℕ) (Launched : ℕ → Type 0) (v : ℤ) (k : Code)
    → Good false code_at translate Launched 0 k
    → Good false code_at translate Launched 0 (initialize_with_priorities v k)
initialize_with_priorities-Good code_at translate Launched v k good =
    if-Good false code_at translate Launched 0 (equal v (pos 0)) _ _
      (λ n. if-Good false code_at translate Launched 0 (equal n (pos 1)) _ _ good good) good

module _ (code_at : ℕ → Option Code) (translate : ℕ → ℕ) (address : ThreadFunction → ℕ)
    (is_loaded : code_at (translate (address t)) ≡ some (code_of t)) where
  abbrev Begins : ℕ → Type 0
  Begins pc = pc ≡ translate (address t)

  abbrev IsGood : ℕ → Code → Type 0
  IsGood = Good false code_at translate Begins

  order_t-Good : (j : ℕ) → IsGood j (code_of t)
  unfolding code_of
  order_t-Good j =
      for_range-Good false code_at translate Begins j 4 1 (t_round (pos j)) _
        (λ i k good n q old size b. good) (inl (inl refl))

  Begins-AllGood : AllGood false code_at translate Begins
  Begins-AllGood pc j c l at =
      let found : code_of t ≡ c = cc is_loaded in subst (IsGood j) found (order_t-Good j)

  expect_quantums_to_tids-Good :
      (rest : List (ℕ × ℕ)) (b : Bool) (n : ℕ) (k : Code)
      → IsGood 0 k
      → IsGood 0 (expect_quantums_to_tids rest b n k)
  unfolding expect_quantums_to_tids
  expect_quantums_to_tids-Good [] b n k good = λ size. good
  expect_quantums_to_tids-Good ((q, tid) ∷ rest) b n k good =
      λ v. expect_quantums_to_tids-Good rest (b && equal v (pos (tid + 1))) (n + 1) k good

  test3-Good : (v : ℤ) → IsGood 0 (test3 address v)
  unfolding test3
  test3-Good v =
      let starts : Known false code_at translate Begins (translate (address t)) =
        (refl, code_of t, is_loaded) in
      initialize_with_priorities-Good code_at translate Begins v _ (
        starts,
        λ a. (
          starts,
          λ b.
              for_range-Good false code_at translate Begins 0 4 1 order_round _
                (λ i k good c d n q old size start. (tt, tt, good))
                (λ n q old size.
                  expect_quantums_to_tids-Good expected_quantums_to_tids true 0 assert_exit
                    (inl (inr refl))),
        ),
      )

  -- Test3 of tests_to_be_ran_separately.cpp never runs into undefined behaviour, if the alarms are
  -- handled between the steps of its threads, none inside a call of the library: in whatever order those steps
  -- and alarms follow one another and whichever system calls fail, if the function of its threads is loaded and
  -- the translation of addresses stays the same. Unless the process exits, the invariant of the library holds
  -- after it.
  pub thread_execution_order-Inv :
      (os : Os) (ts : List (Os × Tick))
      → Translates translate ts
      → Ensures (λ _ w. Inv w.lib) (run_from code_at (thread_execution_order address os) ts)
  unfolding thread_execution_order
  thread_execution_order-Inv os ts same =
      let all = Begins-AllGood in
      Ensures-mono (λ _. Sound false code_at translate Begins all) (λ _ w. Inv w.lib) _
        (run_from-Sound false code_at translate Begins all (thread_execution_order address os) ts
          same
          (initialize-Sound false code_at translate Begins all os 99_999 (test3 address)
            test3-Good))
        (λ _ w h. h.inv)
