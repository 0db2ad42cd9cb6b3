-- ===== src/Clients/Separate/Stress.antt =====
-- The tests of tests_to_be_ran_separately.cpp that terminate threads chosen at random.
use user_level_threads_libra.Prelude.{
  ℕ, zero, suc, ◌+◌, ◌-◌, ◌*◌, ◌/◌, ◌==◌, ◌&&◌, ◌||◌, Bool, true, false, not, if◌then◌else◌, Option,
  none, some, List, [], ◌∷◌, length, map, ℤ, pos, negsuc, ltb, insert_sorted,
}
use user_level_threads_libra.Effects.{Result}
use user_level_threads_libra.Uthreads.State.{Os, max_thread_num}
use user_level_threads_libra.Uthreads.Program.{spawn, terminate, block, resume}
use user_level_threads_libra.Clients.Code.{
  Code, ends, forever, aborts, assign, expect, ask, while_ne, variable, result, equal, for_range,
}
use user_level_threads_libra.Clients.World.{World, loaded, initialize}
use user_level_threads_libra.Clients.Separate.{
  expect_eq, expect_thread_library_error, initialize_with_priorities, assert_exit, plus,
}
pub mod Safety

abbrev pub ran_at_least_once : ℕ
ran_at_least_once = 0

abbrev pub spawn_count : ℕ
spawn_count = max_thread_num - 1

-- `++ranAtLeastOnce; while (true) {}`
unfoldable pub stress_f : Code
stress_f = ask (variable ran_at_least_once) (λ v. assign ran_at_least_once (plus v 1) forever)

-- `for (const int& tid: tids) body`
unfoldable pub for_each : List ℕ → (ℕ → Code → Code) → Code → Code
for_each [] body k = k
for_each (tid ∷ rest) body k = body tid (for_each rest body k)

-- `i`, `i + 1`, …: what the loop pushes to `spawnedThreads`.
unfoldable pub spawned_threads : ℕ → ℕ → List ℕ
spawned_threads zero i = []
spawned_threads (suc n) i = i ∷ spawned_threads n (i + 1)

unfoldable pub first_of : ℕ → List ℕ → List ℕ
first_of zero xs = []
first_of (suc n) [] = []
first_of (suc n) (x ∷ xs) = x ∷ first_of n xs

-- `std::sort`, of ids that are all different.
unfoldable pub sort : List ℕ → List ℕ
unfolding insert_sorted
sort [] = []
sort (x ∷ xs) = insert_sorted x (sort xs)

unfoldable pub threads_to_remove : (shuffle : List ℕ → List ℕ) → List ℕ
unfolding first_of spawned_threads
threads_to_remove shuffle = first_of (spawn_count * 1 / 3) (shuffle (spawned_threads spawn_count 1))

-- `shuffle` is what `std::shuffle` with a random device does; `address` is where `f` is loaded.
unfoldable pub test4 : (shuffle : List ℕ → List ℕ) → (address : ℕ) → ℤ → Code
unfolding for_each threads_to_remove sort
test4 shuffle address v = initialize_with_priorities v (
    for_range spawn_count 1 (λ i. expect_eq (result (spawn address)) (pos i))
      (while_ne (variable ran_at_least_once) (pos spawn_count) [] (
        expect_thread_library_error (result (spawn address)) (
          for_each (threads_to_remove shuffle)
            (λ tid. expect_eq (result (terminate (pos tid))) (pos 0))
            (for_each (sort (threads_to_remove shuffle))
              (λ tid. expect_eq (result (spawn address)) (pos tid)) assert_exit)))))

unfoldable pub stress_and_creation_order :
    (shuffle : List ℕ → List ℕ) → (address : ℕ) → Os → Result World (Unit {0})
unfolding test4 initialize
stress_and_creation_order shuffle address os = initialize os (pos 1) (test4 shuffle address) loaded

-- `while (true) {}`
unfoldable pub random_f : Code
random_f = forever

-- What the random numbers of one call of `doOperation` are: `option`, and the position in a set of a size.
pub record Choice : Type 0 where
  pub option : ℕ
  pub position : (size : ℕ) → ℕ

abbrev pub ltz : ℤ → ℤ → Bool
ltz (pos m) (pos n) = ltb m n
ltz (pos m) (negsuc n) = false
ltz (negsuc m) (pos n) = true
ltz (negsuc m) (negsuc n) = ltb n m

-- `std::set<int>::emplace`
unfoldable pub emplace : ℤ → List ℤ → List ℤ
emplace x [] = x ∷ []
emplace x (y ∷ ys) =
    let rest = y ∷ emplace x ys in
    if ltz x y then x ∷ y ∷ ys else (if equal x y then y ∷ ys else rest)

unfoldable pub erase_tid : ℤ → List ℤ → List ℤ
erase_tid x [] = []
erase_tid x (y ∷ ys) = let rest = y ∷ erase_tid x ys in if equal y x then ys else rest

unfoldable pub element : ℕ → List ℤ → Option ℤ
element i [] = none
element zero (x ∷ xs) = some x
element (suc i) (x ∷ xs) = element i xs

unfoldable pub get_random_active_thread : Choice → List ℤ → Option ℤ
unfolding element
get_random_active_thread c active = element (c.position (length active)) active

-- With a thread `tid` that is in `active`.
abbrev pub operate_on : ℕ → ℤ → List ℤ → (List ℤ → Code) → Code
operate_on option tid active k =
    if option == 3
    then expect_eq (result (terminate tid)) (pos 0) (k (erase_tid tid active))
    else (if option == 4
        then expect_eq (result (block tid)) (pos 0) (k active)
        else (if option == 5 then expect_eq (result (resume tid)) (pos 0) (k active) else k active))

unfoldable pub do_operation : Choice → (address : ℕ) → List ℤ → (List ℤ → Code) → Code
unfolding emplace erase_tid get_random_active_thread
do_operation c address active k =
    if length active == 0 || (c.option == 1 && ltb (length active) (max_thread_num - 1))
    then ask (result (spawn address)) (λ tid. expect (ltz (pos 0) tid) (k (emplace tid active)))
    else elim (get_random_active_thread c active) [
      | none ↦ aborts
      | some tid ↦ operate_on c.option tid active k
    ]

abbrev pub iter_count : ℕ
iter_count = 1000

-- `n` rounds from `i` on, with the choices of `rand`.
unfoldable pub operations : (rand : ℕ → Choice) → (address n i : ℕ) → List ℤ → Code → Code
unfolding do_operation
operations rand address zero i active k = k
operations rand address (suc n) i active k =
    do_operation (rand i) address active (λ active. operations rand address n (i + 1) active k)

-- The constructor of `RandomThreadTesting` initializes the library.
unfoldable pub test6 : (rand : ℕ → Choice) → (address : ℕ) → ℤ → Code
unfolding operations
test6 rand address v =
    initialize_with_priorities v (operations rand address iter_count 0 [] assert_exit)

unfoldable pub random_thread_operations :
    (rand : ℕ → Choice) → (address : ℕ) → Os → Result World (Unit {0})
unfolding test6 initialize
random_thread_operations rand address os = initialize os (pos 1) (test6 rand address) loaded
