-- ===== src/Clients/Code.antt =====
-- The code of a thread, as far as it concerns the library: its calls, the variables that the threads
-- share, what it prints, and what a test expects.
use user_level_threads_libra.Prelude.{
  ℕ, zero, suc, ◌+◌, ◌==◌, Bool, false, List, [], ◌∷◌, ℤ, pos, negsuc,
}
use Prim.Native.String.{String}
use user_level_threads_libra.Uthreads.Program.{Event, get_tid, terminate}

abbrev pub equal : ℤ → ℤ → Bool
equal (pos m) (pos n) = m == n
equal (pos m) (negsuc n) = false
equal (negsuc m) (pos n) = false
equal (negsuc m) (negsuc n) = m == n

-- A variable that the threads share, by its number, a call of the library, how many library errors stand
-- on std::cerr, or `uthread_init`.
pub data Query : Type 0 where
  variable : ℕ → Query
  result : Event → Query
  errors : Query
  init : ℤ → Query

-- `printf(format, query)`
pub record Shown : Type 0 where
  pub format : String
  pub query : Query

-- What a thread does from some point on. `while_ne q n body k` is `while (q != n) { body }` and then `k`;
-- after `ends` control is at the end of the thread's function, and `aborts` is an `assert` that fails.
pub data Code : Type 0 where
  ends forever aborts : Code
  printf : (format : String) → (args : List ℤ) → Code → Code
  assign : (var : ℕ) → ℤ → Code → Code
  expect : Bool → Code → Code
  ask : Query → (ℤ → Code) → Code
  while_ne : Query → ℤ → (body : List Shown) → Code → Code

abbrev pub call : Event → Code → Code
call e k = ask (result e) (λ _. k)

-- `printf(format, n, query)`
abbrev pub print_of : String → ℤ → Query → Code → Code
print_of format n q k = ask q (λ v. printf format (n ∷ v ∷ []) k)

unfoldable pub unroll : List Shown → Code → Code
unroll [] k = k
unroll (a ∷ as') k = ask a.query (λ v. printf a.format (v ∷ []) (unroll as' k))

-- `for (int i = …; …; ++i) body`, by the rounds that are left.
unfoldable pub for_range : ℕ → ℕ → (ℕ → Code → Code) → Code → Code
for_range zero i body k = k
for_range (suc n) i body k = body i (for_range n (i + 1) body k)

-- `uthread_terminate(uthread_get_tid())`
abbrev pub terminate_itself : Code → Code
terminate_itself k = ask (result get_tid) (λ t. call (terminate t) k)
