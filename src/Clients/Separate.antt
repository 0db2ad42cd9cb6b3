-- ===== src/Clients/Separate.antt =====
-- tests_to_be_ran_separately.cpp: its helpers, and the tests that go through a fixed order of threads.
use user_level_threads_libra.Prelude.{
  ℕ, zero, suc, ◌+◌, ◌-◌, ◌*◌, ◌==◌, Bool, true, false, not, ◌&&◌, if◌then◌else◌, List, [], ◌∷◌, ℤ,
  pos, negsuc, ltb, leb,
}
use user_level_threads_libra.Effects.{Result}
use user_level_threads_libra.Uthreads.State.{Os, failure, stack_size}
use user_level_threads_libra.Uthreads.Program.{
  Event, spawn, terminate, block, resume, get_tid, get_quantums, get_total_quantums,
}
use user_level_threads_libra.Clients.Code.{
  Code, ends, forever, aborts, printf, assign, expect, ask, while_ne, Query, variable, result,
  errors, init, equal, for_range,
}
use user_level_threads_libra.Clients.World.{World, loaded, initialize}
pub mod Stress
pub mod Safety
pub mod Passes
mod Samples

abbrev pub millisecond : ℕ
millisecond = 1000

-- `EXPECT_EQ(query, n)`
abbrev pub expect_eq : Query → ℤ → Code → Code
expect_eq q n k = ask q (λ v. expect (equal v n) k)

-- `EXPECT_TRUE` of a variable.
abbrev pub expect_true : ℕ → Code → Code
expect_true x k = ask (variable x) (λ v. expect (not (equal v (pos 0))) k)

-- The error output of the call is what stands on std::cerr after it and not before it.
abbrev pub expect_thread_library_error : Query → Code → Code
expect_thread_library_error q k = ask errors (λ before.
    ask q
      (λ v. ask errors (λ after. expect (equal v failure) (expect (not (equal after before)) k))))

-- After `uthread_init`, which returned `v`. An `ASSERT_EQ` that fails leaves this function, not the test.
abbrev pub initialize_with_priorities : ℤ → Code → Code
initialize_with_priorities v k =
    let noted =
      if ltb stack_size 8192
      then printf "(NOT AN ERROR) Your STACK_SIZE is %d" (pos stack_size ∷ []) k
      else k in
    if equal v (pos 0)
    then ask (result get_total_quantums) (λ n. if equal n (pos 1) then noted else expect false k)
    else expect false k

abbrev pub plus : ℤ → ℕ → ℤ
plus (pos m) n = pos (m + n)
plus (negsuc m) n = if leb n m then negsuc (m - n) else pos (n - suc m)

abbrev pub thread_quantum_sleep : ℕ → Code → Code
thread_quantum_sleep n k =
    if ltb 0 n
    then ask (result get_tid) (λ my_id.
      ask (result (get_quantums my_id))
        (λ start. while_ne (result (get_quantums my_id)) (plus start n) [] k))
    else aborts

-- `ASSERT_EXIT(uthread_terminate(0), ExitedWithCode(0), "")`: this is the child process in which it makes the
-- call; to come back from the call is a failure.
abbrev pub assert_exit : Code
assert_exit = ask (result (terminate (pos 0))) (λ v. expect false ends)

-- The static variables; each test is a process of its own.
abbrev pub ran : ℕ
ran = 0

abbrev pub reached_middle : ℕ
reached_middle = 0

abbrev pub reached_f : ℕ
reached_f = 1

-- The functions that the threads of the tests run.
pub data ThreadFunction : Type 0 where
  t1 f g t : ThreadFunction

unfoldable pub basic_t1 : Code
basic_t1 = expect_eq (result get_tid) (pos 1) (
    expect_eq (result (get_quantums (pos 1))) (pos 1) (
      expect_eq (result (get_quantums (pos 0))) (pos 1) (
        expect_eq (result get_total_quantums) (pos 2)
          (assign ran (pos 1) (expect_eq (result (terminate (pos 1))) (pos 0) ends)))))

unfoldable pub scheduling_f : Code
scheduling_f =
    expect_true reached_middle
      (assign reached_f (pos 1) (expect_eq (result (terminate (pos 1))) (pos 0) ends))

unfoldable pub scheduling_g : Code
scheduling_g =
    expect_eq (result (resume (pos 1))) (pos 0)
      (expect_eq (result (terminate (pos 2))) (pos 0) ends)

-- `quantumsToTids` has its size in variable 0, and in variable `q + 1` one more than its value at `q`, or 0
-- where it has none.
abbrev pub entry_of : ℤ → ℕ
entry_of (pos q) = q + 1
entry_of (negsuc q) = 0

-- `quantumsToTids[q] = tid`
abbrev pub set_quantums_to_tids : ℤ → ℤ → Code → Code
set_quantums_to_tids q tid k = ask (variable (entry_of q)) (λ old. ask (variable 0) (λ size.
    assign 0 (if equal old (pos 0) then plus size 1 else size)
      (assign (entry_of q) (plus tid 1) k)))

abbrev pub t_round : ℤ → ℕ → Code → Code
t_round tid i k = expect_eq (result (get_quantums tid)) (pos i) (
    ask (result get_total_quantums)
      (λ q. set_quantums_to_tids q tid (expect_eq (result (block tid)) (pos 0) k)))

unfoldable pub order_t : Code
order_t =
    ask (result get_tid)
      (λ tid. for_range 4 1 (t_round tid) (expect_eq (result (terminate tid)) (pos 0) ends))

unfoldable pub code_of : ThreadFunction → Code
unfolding basic_t1 scheduling_f scheduling_g order_t
code_of t1 = basic_t1
code_of f = scheduling_f
code_of g = scheduling_g
code_of t = order_t

abbrev pub expected_quantums_to_tids : List (ℕ × ℕ)
expected_quantums_to_tids =
    (1, 0)
    ∷ (2, 1)
    ∷ (3, 2)
    ∷ (4, 0)
    ∷ (5, 2)
    ∷ (6, 1)
    ∷ (7, 0)
    ∷ (8, 2)
    ∷ (9, 1)
    ∷ (10, 0)
    ∷ (11, 2)
    ∷ (12, 1)
    ∷ (13, 0)
    ∷ []

-- `EXPECT_EQ(quantumsToTids, expectedQuantumsToTids)`, where the `n` entries that came before this are as they
-- should be.
unfoldable pub expect_quantums_to_tids : List (ℕ × ℕ) → Bool → ℕ → Code → Code
expect_quantums_to_tids [] b n k = ask (variable 0) (λ size. expect (b && equal size (pos n)) k)
expect_quantums_to_tids ((q, tid) ∷ rest) b n k =
    ask (variable (q + 1))
      (λ v. expect_quantums_to_tids rest (b && equal v (pos (tid + 1))) (n + 1) k)

abbrev pub order_round : ℕ → Code → Code
order_round i k = expect_eq (result get_tid) (pos 0) (
    expect_eq (result (resume (pos 2))) (pos 0) (
      expect_eq (result (resume (pos 1))) (pos 0) (
        expect_eq (result (get_quantums (pos 0))) (pos i) (
          ask (result get_total_quantums)
            (λ q. set_quantums_to_tids q (pos 0) (thread_quantum_sleep 1 k))))))

-- `address` is where a function is loaded.
module _ (address : ThreadFunction → ℕ) where
  -- From the second call of `uthread_init` on, which returns `v`.
  abbrev pub basic_functionality : ℤ → Code
  basic_functionality v = initialize_with_priorities v (
      expect_thread_library_error (result (block (pos 0))) (
        expect_eq (result (get_quantums (pos 0))) (pos 1) (
          expect_eq (result (spawn (address t1))) (pos 1) (
            expect_eq (result get_total_quantums) (pos 1) (
              expect_eq (result (get_quantums (pos 0))) (pos 1) (
                thread_quantum_sleep 1 (
                  expect_true ran (
                    expect_eq (result (get_quantums (pos 0))) (pos 2) (
                      expect_eq (result get_total_quantums) (pos 3) (
                        expect_thread_library_error (result (get_quantums (pos 1))) (
                          expect_thread_library_error (result (block (pos 1))) (
                            expect_thread_library_error (result (resume (pos 1))) (
                              expect_thread_library_error (result (terminate (pos 1)))
                                assert_exit)))))))))))))

  unfoldable pub test1 : Code
  test1 =
      expect_thread_library_error (init (negsuc 1336))
        (ask (init (pos (100 * millisecond))) basic_functionality)

  unfoldable pub test2 : ℤ → Code
  test2 v = initialize_with_priorities v (
      expect_eq (result (spawn (address f))) (pos 1) (
        expect_eq (result (spawn (address g))) (pos 2) (
          expect_eq (result (block (pos 1))) (pos 0) (
            thread_quantum_sleep 1 (
              assign reached_middle (pos 1) (
                thread_quantum_sleep 1 (
                  expect_true reached_f
                    (expect_eq (result get_total_quantums) (pos 5) assert_exit))))))))

  unfoldable pub test3 : ℤ → Code
  unfolding order_round expect_quantums_to_tids
  test3 v = initialize_with_priorities v (
      expect_eq (result (spawn (address t))) (pos 1) (
        expect_eq (result (spawn (address t))) (pos 2) (
          for_range 4 1 order_round (
            expect_eq (result get_total_quantums) (pos 13) (
              ask (result get_total_quantums) (λ q.
                set_quantums_to_tids q (pos 0)
                  (expect_quantums_to_tids expected_quantums_to_tids true 0 assert_exit)))))))

-- Each test is a process, at whose start nothing can interrupt it.
unfoldable pub basic_functionality_process : (ThreadFunction → ℕ) → World
unfolding test1
basic_functionality_process address = record loaded { now = test1 address }

unfoldable pub thread_scheduling_process : (ThreadFunction → ℕ) → World
unfolding test2
thread_scheduling_process address = record loaded {
  now = ask (init (pos millisecond)) (test2 address);
}

unfoldable pub thread_execution_order : (ThreadFunction → ℕ) → Os → Result World (Unit {0})
unfolding test3 initialize
thread_execution_order address os = initialize os (pos (100 * millisecond)) (test3 address) loaded
