-- ===== src/Uthreads/Contract/Init.antt =====
-- `uthread_init`: the state that it sets up.
use user_level_threads_libra.Prelude.{ℕ, suc, ◌≡◌, refl, some, pos, arith}
use user_level_threads_libra.Uthreads.State.{Os, zeroed, success}
use user_level_threads_libra.Uthreads.Process.{ok}
use user_level_threads_libra.Uthreads.Signals.{quantum_timer}
use user_level_threads_libra.Uthreads.Scheduler.{returns}
use user_level_threads_libra.Uthreads.Api.{init_with, uthread_init}
use user_level_threads_libra.Uthreads.Healthy.{IsHealthy}
use user_level_threads_libra.Uthreads.Safety.{initial, initial-Inv}
use user_level_threads_libra.Uthreads.Invariant.Defs.{Inv}

-- On a healthy system with memory and a zeroed process, a positive quantum is accepted; the process then
-- is in the state `initial`, in which the invariant holds, the timer has the quantum, and the number of
-- quantums is 1.
pub uthread_init_lem :
    (os : Os) (q stack : ℕ)
    → IsHealthy os
    → os.new_stack ≡ some stack
    → (uthread_init os (pos (suc q)) zeroed ≡ ok (returns success) (initial (suc q)))
      × Inv (initial (suc q))
      × ((initial (suc q)).timer ≡ quantum_timer (suc q))
      × ((initial (suc q)).total_quantums ≡ 1)
unfolding uthread_init init_with
uthread_init_lem os q stack well n = (
  ground (arith, well.action, well.itimer (quantum_timer (suc q)) (omega arith) (omega arith)),
  initial-Inv (suc q),
  refl,
  refl,
)
