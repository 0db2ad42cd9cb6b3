-- ===== src/Uthreads/Invariant/Rules.antt =====
-- Rules for sequences, and for a step through `all_threads_`.
use user_level_threads_libra.Prelude.{ℕ, ◌≡◌, some}
use user_level_threads_libra.Uthreads.State.{State, UThread, update}
use user_level_threads_libra.Uthreads.Process.{ok, at_thread}
pub use user_level_threads_libra.Effects.{
  bind-Outcome, bind-Ensures, bind-Yields, bind-Stays, Returns-Ensures, Returns-mono, step-Ensures,
  Ensures-eq, bind-eq, Returns-bind-eq,
}

pub at_thread-eq :
    (t : ℕ) (f : UThread → UThread) (s : State) (u : UThread)
    → s.all_threads t ≡ some u
    → at_thread t f s ≡ ok tt (record s { all_threads = update s.all_threads t (some (f u)) })
unfolding at_thread
at_thread-eq t f s u e = rw (e, at_thread)
