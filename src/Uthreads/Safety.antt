-- ===== src/Uthreads/Safety.antt =====
-- The invariant in a program: after `uthread_init`, after a call or an alarm, and after a history of them.
use user_level_threads_libra.Prelude.{
  ℕ, zero, suc, ◌+◌, ◌-◌, ◌≤◌, ltb, leb, if◌then◌else◌, ◌≡◌, refl, true, false, ◌&&◌, some, List,
  [], ◌∷◌, pos, count, insert_sorted, insert_sorted-IsAscending, IsAscending, count-insert_sorted,
  arith,
}
use user_level_threads_libra.Uthreads.State.{Os, State, zeroed, update, max_thread_num}
use user_level_threads_libra.Uthreads.Process.{ok}
use user_level_threads_libra.Uthreads.Signals.{quantum_timer}
use user_level_threads_libra.Uthreads.Scheduler.{goes_on, timer_handler}
use user_level_threads_libra.Uthreads.Api.{
  main_thread, insert_ids, init_with, uthread_init, uthread_get_tid, uthread_get_total_quantums,
}
use user_level_threads_libra.Uthreads.Program.{
  Event, spawn, terminate, block, resume, sleep, get_quantums, get_tid, get_total_quantums, alarm,
  perform, run, Allowed, AllAllowed,
}
use user_level_threads_libra.Uthreads.Invariant.Rules.{bind-Ensures, Ensures-eq}
use user_level_threads_libra.Uthreads.Invariant.Defs.{Ensures, Inv}
use user_level_threads_libra.Uthreads.Invariant.Switch.{timer_handler-Inv}
use user_level_threads_libra.Uthreads.Invariant.Spawning.{uthread_spawn-Inv}
use user_level_threads_libra.Uthreads.Invariant.Terminating.{uthread_terminate-Inv}
use user_level_threads_libra.Uthreads.Invariant.Blocking.{uthread_block-Inv}
use user_level_threads_libra.Uthreads.Invariant.Resuming.{uthread_resume-Inv}
use user_level_threads_libra.Uthreads.Invariant.Sleeping.{
  uthread_sleep-Inv, uthread_get_quantums-Inv,
}

count-insert_ids :
    (t n i : ℕ) (ids : List ℕ)
    → ((k : ℕ) → i ≤ k → count k ids ≡ 0)
    → count t (insert_ids n i ids) ≡ count t ids + (if leb i t && ltb t (i + n) then 1 else 0)
unfolding insert_ids
count-insert_ids t zero i ids h = ground arith
count-insert_ids t (suc n) i ids h = ground (
  arith,
  count-insert_ids t n (i + 1) (insert_sorted i ids) later,
  count-insert_sorted t i ids (h i (omega arith)),
)
  where
    later : (k : ℕ) → i + 1 ≤ k → count k (insert_sorted i ids) ≡ 0
    later k le = ground (arith, h k (omega arith), count-insert_sorted k i ids (h i (omega arith)))

insert_ids-IsAscending :
    (n i : ℕ) (ids : List ℕ) → IsAscending ids → IsAscending (insert_ids n i ids)
unfolding insert_ids
insert_ids-IsAscending zero i ids a = a
insert_ids-IsAscending (suc n) i ids a =
    insert_ids-IsAscending n (i + 1) (insert_sorted i ids) (insert_sorted-IsAscending i ids a)

-- The state in which `uthread_init` returns.
abbrev pub initial : ℕ → State
initial q = record zeroed {
  all_threads = update zeroed.all_threads 0 (some main_thread);
  free_ids = insert_ids (max_thread_num - 1) 1 [];
  total_quantums = 1;
  quantum = q;
  timer = quantum_timer q;
  handled = true;
  armed = true;
}

pub initial-Inv : (q : ℕ) → Inv (initial q)
unfolding main_thread
initial-Inv q = record {
  placed = λ t. ground (arith, count-insert_ids t (max_thread_num - 1) 1 [] (λ k h. refl));
  envs = λ t h. ground arith;
  known = λ t h. ground arith;
  here = refl;
  mask = refl;
  ascending = insert_ids-IsAscending (max_thread_num - 1) 1 [] tt;
}

init_with-Inv : (os : Os) (q : ℕ) → Ensures (λ _. Inv) (init_with os q zeroed)
unfolding init_with
init_with-Inv os q = ground (arith, initial-Inv q)

-- `uthread_init` with a positive quantum, on the zeroed process, is never undefined; if it returns, the
-- invariant holds, whichever of its system calls fail.
pub uthread_init-Inv : (os : Os) (q : ℕ) → Ensures (λ _. Inv) (uthread_init os (pos (suc q)) zeroed)
unfolding uthread_init
uthread_init-Inv os q = init_with-Inv os (suc q)

-- A call of the library or an alarm, in a state with the invariant, is never undefined if it does not
-- terminate a sleeping thread; unless the process exits, the invariant holds after it. System calls
-- may fail.
pub perform-Inv :
    (os : Os) (e : Event) (s : State) → Inv s → Allowed e s → Ensures (λ _. Inv) (perform os e s)
unfolding perform uthread_get_tid uthread_get_total_quantums
perform-Inv os (spawn p) s inv a = uthread_spawn-Inv os p inv
perform-Inv os (terminate t) s inv a = uthread_terminate-Inv os t a inv
perform-Inv os (block t) s inv a = uthread_block-Inv os t inv
perform-Inv os (resume t) s inv a = uthread_resume-Inv os t inv
perform-Inv os (sleep n) s inv a = uthread_sleep-Inv os n inv
perform-Inv os (get_quantums t) s inv a = uthread_get_quantums-Inv os t inv
perform-Inv os get_tid s inv a = inv
perform-Inv os get_total_quantums s inv a = inv
perform-Inv os alarm s inv a =
    elim s.masked as (λ b. Ensures (λ _. Inv) (if b then ok goes_on s else timer_handler os s)) [
      | true ↦ inv
      | false ↦ timer_handler-Inv os s inv
    ]

-- From a state with the invariant, no history of calls and alarms that terminates no sleeping thread is
-- undefined; unless the process exits, the invariant holds at its end.
pub run-Inv :
    (es : List (Os × Event)) (s : State) → Inv s → AllAllowed es s → Ensures (λ _. Inv) (run es s)
unfolding run
run-Inv [] s inv a = inv
run-Inv ((os, e) ∷ rest) s inv a =
    bind-Ensures (λ c t. Inv t × (perform os e s ≡ ok c t)) (λ _. Inv) (perform os e)
      (λ _. run rest) s (Ensures-eq (λ _. Inv) (perform os e s) (perform-Inv os e s inv a.0))
      λ c t h. run-Inv rest t h.0 (a.1 c t h.1)
