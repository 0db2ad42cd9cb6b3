-- ===== src/Nim/Process.antt =====
-- The effects of the library's functions: errors, and accesses through a `Thread *`.
use user_level_threads_libra.Prelude.{
  ℕ, Bool, true, false, none, some, ◌∷◌, ◌++◌, ◌&&◌, [], ltb, if◌then◌else◌, contains,
}
use user_level_threads_libra.Uthreads.State.{update, exit_failure, max_thread_num}
use user_level_threads_libra.Nim.State.{
  State, Thread, SystemError, LibraryError, prefix_system_error, prefix_library_error,
}
pub use user_level_threads_libra.Effects.{Result, ok, exited, undefined}

abbrev pub M : Type 0 → Type 0
M A = State → Result State A

abbrev pub return : {A : Type 0} → A → M A
return a s = ok a s

infixl 5 ◌>>=◌ ◌>>◌
abbrev pub ◌>>=◌ : {A B : Type 0} → M A → (A → M B) → M B
◌>>=◌ m f s = elim (m s) [ ok a t ↦ f a t | exited c t ↦ exited c t | undefined ↦ undefined ]

abbrev pub ◌>>◌ : {B : Type 0} → M (Unit {0}) → M B → M B
◌>>◌ m n = m >>= λ _. n

abbrev pub modify : (State → State) → M (Unit {0})
modify f s = ok tt (f s)

abbrev pub get : M State
get s = ok s s

-- `delete` for each thread whose id is a key of `allThreads`.
unfoldable pub free_all_thread : State → State
free_all_thread s = record s {
  objects = λ k. if ltb k max_thread_num && contains k s.all_threads then none else s.objects k;
}

unfoldable pub system_error : {A : Type 0} → SystemError → M A
unfolding free_all_thread
system_error e s =
    exited exit_failure (record (free_all_thread s) { cerr = prefix_system_error e ∷ s.cerr })

unfoldable pub print_errors : LibraryError → M (Unit {0})
print_errors e s = ok tt (record s { cerr = prefix_library_error e ∷ s.cerr })

-- `if (call == FAIL) { systemError(e); }`
unfoldable pub die_if : Bool → SystemError → M (Unit {0})
unfolding system_error
die_if true e s = system_error e s
die_if false e s = ok tt s

-- `p->getId()`
unfoldable pub get_id : ℕ → M ℕ
get_id p s = elim (s.objects p) [ none ↦ undefined | some u ↦ ok u.id s ]

-- A member function of `*p` that changes the thread.
unfoldable pub at_object : ℕ → (Thread → Thread) → M (Unit {0})
at_object p f s = elim (s.objects p) [
  | none ↦ undefined
  | some u ↦ ok tt (record s { objects = update s.objects p (some (f u)) })
]

unfoldable pub push_back : ℕ → M (Unit {0})
push_back p = modify (λ s. record s { ready = s.ready ++ p ∷ [] })
