-- ===== src/Clients/Main.antt =====
-- main.cpp: its thread functions and its test programs, each as `main` would run it. What only takes up time
-- (malloc, memcpy, free) is left out.
use user_level_threads_libra.Prelude.{
  ℕ, zero, suc, ◌==◌, Bool, true, false, if◌then◌else◌, Option, none, some, List, [], ◌∷◌, ℤ, pos,
}
use Prim.Native.String.{String}
use user_level_threads_libra.Effects.{Result}
use user_level_threads_libra.Uthreads.State.{Os, State}
use user_level_threads_libra.Uthreads.Program.{
  Event, spawn, terminate, block, resume, sleep, get_quantums, get_total_quantums,
}
use user_level_threads_libra.Clients.Code.{
  Code, ends, printf, assign, ask, while_ne, variable, result, call, print_of, for_range,
  terminate_itself,
}
use user_level_threads_libra.Clients.World.{World, after_init}
pub mod Safety

-- `int flag`
abbrev pub flag : ℕ
flag = 0

-- The format and the argument of the line that it prints, if any.
unfoldable pub check_block_timer : String → State → Option (String × String)
check_block_timer str s = if s.masked then some ("time_blocked %s", str) else none

-- `printf("thread num %d = %d\n", t, uthread_get_quantums(t))`
abbrev pub print_quantums : ℕ → Code → Code
print_quantums t = print_of "thread num %d = %d\n" (pos t) (result (get_quantums (pos t)))

abbrev pub print_main_running : Code → Code
print_main_running k =
    ask (result (get_quantums (pos 0))) (λ v. printf "main running: %d\n" (v ∷ []) k)

-- The end of each test.
abbrev pub print_total : String → Code → Code
print_total format k = ask (result get_total_quantums) (λ v. printf format (v ∷ []) k)

unfoldable pub func_regular_block_resume : Code
func_regular_block_resume =
    for_range 100_000 0 (λ i. printf "regular_block_resume\n" [])
      (assign flag (pos 1) (print_quantums 1 (terminate_itself ends)))

unfoldable pub func_sleep : Code
func_sleep = call (sleep (pos 15)) (
    for_range 1000 0 (λ i. printf "func_sleep\n" [])
      (assign flag (pos 1) (print_quantums 1 (terminate_itself ends))))

unfoldable pub func_block_and_sleep : Code
func_block_and_sleep = call (sleep (pos 1)) (
    printf "sleeping\n" [] (
      for_range 10_000 0 (λ i. printf "block_and_sleep\n" [])
        (assign flag (pos 1) (print_quantums 1 (terminate_itself ends)))))

unfoldable pub func_sleep_and_block : Code
func_sleep_and_block = call (sleep (pos 30)) (
    printf "sleeping\n" [] (
      for_range 10_000 0 (λ i. printf "sleep_block\n" [])
        (assign flag (pos 1) (print_quantums 1 (terminate_itself ends)))))

-- `if (i == n) { call; }`
abbrev pub call_at : ℕ → ℕ → Event → Code → Code
call_at n i e k = if i == n then call e k else k

abbrev pub block_itself_round : ℕ → Code → Code
block_itself_round i k = call_at 10 i (block (pos 1)) (printf "block_itself\n" [] k)

unfoldable pub func_block_itself : Code
func_block_itself =
    for_range 10_000 0 block_itself_round
      (assign flag (pos 1) (print_quantums 1 (terminate_itself ends)))

unfoldable pub func_terminate_itself : Code
func_terminate_itself =
    for_range 10_000 0 (λ i k. call_at 10 i (terminate (pos 1)) (printf "terminate_itself\n" [] k))
      (assign flag (pos 1) ends)

unfoldable pub func1 : Code
func1 = for_range 100_000 0 (λ i. printf "func1\n" []) (call (terminate (pos 1)) ends)

unfoldable pub func2 : Code
func2 = for_range 100_000 0 (λ i. printf "func2\n" []) (call (terminate (pos 2)) ends)

unfoldable pub func3 : Code
func3 = for_range 100_000 0 (λ i. printf "func3\n" []) (call (terminate (pos 3)) ends)

unfoldable pub func4 : Code
func4 =
    for_range 100_000 0 (λ i. printf "func4\n" [])
      (assign flag (pos 1) (call (terminate (pos 4)) ends))

unfoldable pub func_switch_thread : Code
func_switch_thread =
    for_range 100_000 0 (λ i. printf "switch thread\n" [])
      (assign flag (pos 1) (print_quantums 1 (terminate_itself ends)))

-- The functions that the tests start.
pub data ThreadFunction : Type 0 where
  regular_block_resume sleeping block_and_sleep sleep_and_block block_itself terminating_itself
        first second third fourth switch_thread :
      ThreadFunction

unfoldable pub code_of : ThreadFunction → Code
unfolding func_regular_block_resume func_sleep func_block_and_sleep func_sleep_and_block
    func_block_itself func_terminate_itself func1 func2 func3 func4 func_switch_thread
code_of regular_block_resume = func_regular_block_resume
code_of sleeping = func_sleep
code_of block_and_sleep = func_block_and_sleep
code_of sleep_and_block = func_sleep_and_block
code_of block_itself = func_block_itself
code_of terminating_itself = func_terminate_itself
code_of first = func1
code_of second = func2
code_of third = func3
code_of fourth = func4
code_of switch_thread = func_switch_thread

pub data Test : Type 0 where
  thread_block_itself thread_terminate_itself sleep_then_block block_then_sleep only_sleep
        block_then_resume switch_4_threads switch_to_thread :
      Test

-- One round of the loop of `main` in each test that has more to it than a line.
abbrev pub main_running_round : ℕ → Code → Code
main_running_round i k = print_main_running (printf "%d\n" (pos i ∷ []) k)

abbrev pub sleep_and_block_round : ℕ → Code → Code
sleep_and_block_round i k =
    let shown = print_main_running k in
    let resumed = call (resume (pos 1)) (printf "resumed\n" [] shown) in
    let next = if i == 10_000 then resumed else shown in
    if i == 5000 then printf "blocked\n" [] (call (block (pos 1)) next) else next

abbrev pub block_and_sleep_round : ℕ → Code → Code
block_and_sleep_round i k =
    let next = call_at 99_999 i (resume (pos 1)) (printf "%d\n" (pos i ∷ []) k) in
    if i == 5000 then call (block (pos 1)) (printf "blocked\n" [] next) else next

abbrev pub block_resume_round : ℕ → Code → Code
block_resume_round i k =
    let shown = printf "%d\n" (pos i ∷ []) k in
    if i == 300 then call (resume (pos 1)) (printf "unblock\n" [] shown) else shown

-- `address` is where a function is loaded.
module _ (address : ThreadFunction → ℕ) (os : Os) where
  abbrev pub spawn_of : ThreadFunction → Code → Code
  spawn_of f = call (spawn (address f))

  unfoldable pub test_thread_block_itself : Result World (Unit {0})
  unfolding after_init
  test_thread_block_itself = after_init os (pos 1) (
      spawn_of block_itself (
        for_range 100_000 0 main_running_round
          (print_quantums 0 (print_total "total = %d\n" (call (terminate (pos 0)) ends)))))

  unfoldable pub test_thread_terminate_itself : Result World (Unit {0})
  unfolding after_init
  test_thread_terminate_itself = after_init os (pos 1) (
      spawn_of terminating_itself (
        for_range 100_000 0 main_running_round
          (print_quantums 0 (print_total "total = %d\n" (call (terminate (pos 0)) ends)))))

  unfoldable pub test_sleep_and_block : Result World (Unit {0})
  unfolding after_init
  test_sleep_and_block = after_init os (pos 1) (
      spawn_of sleep_and_block (
        for_range 1_000_000 0 sleep_and_block_round (
          while_ne (variable flag) (pos 1)
            (record { format = "main running: %d\n"; query = result (get_quantums (pos 0)) } ∷ [])
            (assign flag (pos 0)
              (print_quantums 0 (print_total " total = %d\n" (call (terminate (pos 0)) ends)))))))

  unfoldable pub test_block_and_sleep : Result World (Unit {0})
  unfolding after_init
  test_block_and_sleep = after_init os (pos 1) (
      spawn_of block_and_sleep (
        printf "sleeping\n" [] (
          for_range 100_000 0 block_and_sleep_round (
            while_ne (variable flag) (pos 1) [] (
              assign flag (pos 0) (
                print_quantums 0 (print_total " total = %d\n" (call (terminate (pos 0)) ends))))))))

  unfoldable pub test_sleep : Result World (Unit {0})
  unfolding after_init
  test_sleep = after_init os (pos 1) (
      spawn_of sleeping (
        printf "sleeping\n" [] (
          for_range 10_000 0 (λ i. printf "%d\n" (pos i ∷ []))
            (while_ne (variable flag) (pos 1) [] (
              printf "finished sleep\n" [] (
                assign flag (pos 0) (
                  print_quantums 0
                    (print_total " total = %d\n" (call (terminate (pos 0)) ends)))))))))

  unfoldable pub test_regular_block_resume : Result World (Unit {0})
  unfolding after_init
  test_regular_block_resume = after_init os (pos 1) (
      spawn_of regular_block_resume (
        call (block (pos 1)) (
          printf "blocked\n" [] (
            for_range 100_000 0 block_resume_round (
              while_ne (variable flag) (pos 1) [] (
                print_quantums 0 (print_total " total = %d\n" (call (terminate (pos 0)) ends))))))))

  unfoldable pub test_switch_4_threads : Result World (Unit {0})
  unfolding after_init
  test_switch_4_threads = after_init os (pos 1) (
      spawn_of first (
        spawn_of second (
          spawn_of third (
            spawn_of fourth (
              while_ne (variable flag) (pos 1) [] (
                print_quantums 0 (print_total " total = %d\n" (call (terminate (pos 0)) ends))))))))

  unfoldable pub test_switch_thread : Result World (Unit {0})
  unfolding after_init
  test_switch_thread = after_init os (pos 1) (
      spawn_of switch_thread (
        for_range 100_000 0 (λ i. printf "%d\n" (pos i ∷ []))
          (while_ne (variable flag) (pos 1) []
            (print_quantums 0 (print_total "total = %d\n" (call (terminate (pos 0)) ends))))))

  -- Each test is run by itself.
  unfoldable pub run_test : Test → Result World (Unit {0})
  unfolding test_thread_block_itself test_thread_terminate_itself test_sleep_and_block
      test_block_and_sleep test_sleep test_regular_block_resume test_switch_4_threads
      test_switch_thread
  run_test thread_block_itself = test_thread_block_itself
  run_test thread_terminate_itself = test_thread_terminate_itself
  run_test sleep_then_block = test_sleep_and_block
  run_test block_then_sleep = test_block_and_sleep
  run_test only_sleep = test_sleep
  run_test block_then_resume = test_regular_block_resume
  run_test switch_4_threads = test_switch_4_threads
  run_test switch_to_thread = test_switch_thread

  unfoldable pub main : Result World (Unit {0})
  unfolding run_test
  main = run_test sleep_then_block
