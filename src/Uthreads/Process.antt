-- ===== src/Uthreads/Process.antt =====
-- The effects of the library's functions: they change the global variables, may end the process, and
-- may do what C++ leaves undefined.
use user_level_threads_libra.Prelude.{ℕ, Bool, true, false, none, some, [], ◌∷◌, ◌++◌}
use user_level_threads_libra.Uthreads.State.{
  State, Status, UThread, SystemError, LibraryError, system_call_err, library_err, update,
  exit_failure,
}
pub use user_level_threads_libra.Effects.{Result, ok, exited, undefined}

abbrev pub M : Type 0 → Type 0
M A = State → Result State A

abbrev pub return : {A : Type 0} → A → M A
return a s = ok a s

infixl 5 ◌>>=◌ ◌>>◌
abbrev pub ◌>>=◌ : {A B : Type 0} → M A → (A → M B) → M B
◌>>=◌ m f s = elim (m s) [ ok a t ↦ f a t | exited c t ↦ exited c t | undefined ↦ undefined ]

abbrev pub ◌>>◌ : {B : Type 0} → M (Unit {0}) → M B → M B
◌>>◌ m n = m >>= λ _. n

abbrev pub modify : (State → State) → M (Unit {0})
modify f s = ok tt (f s)

abbrev pub get : M State
get s = ok s s

-- `if (call fails) { std::cerr << SYSTEM_CALL_ERR << e; exit(EXIT_FAILURE); }`
unfoldable pub die_if : Bool → SystemError → M (Unit {0})
die_if true e s = exited exit_failure (record s { cerr = system_call_err e ∷ s.cerr })
die_if false e s = ok tt s

-- `std::cerr << LIBRARY_ERR << e; return FAILURE;`
unfoldable pub fail_with {ℓ} : {A : Type ℓ} → A → LibraryError → State → Result State A
fail_with a e s = ok a (record s { cerr = library_err e ∷ s.cerr })

-- `all_threads_[t]->…`: for an id that is not in the map this goes through a null pointer.
unfoldable pub at_thread : ℕ → (UThread → UThread) → M (Unit {0})
at_thread t f s = elim (s.all_threads t) [
  | none ↦ undefined
  | some u ↦ ok tt (record s { all_threads = update s.all_threads t (some (f u)) })
]

unfoldable pub set_status : ℕ → Status → M (Unit {0})
unfolding at_thread
set_status t st = at_thread t (λ u. record u { status = st })

unfoldable pub push_ready : ℕ → M (Unit {0})
push_ready t = modify (λ s. record s { ready_tids = s.ready_tids ++ t ∷ [] })
