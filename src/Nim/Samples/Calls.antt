-- ===== src/Nim/Samples/Calls.antt =====
-- The theorems on single calls, at concrete states.
use user_level_threads_libra.Prelude.{ℕ, ◌<◌, ◌≡◌, ◌≢◌, refl, none, pos, arith}
use user_level_threads_libra.Uthreads.State.{max_thread_num, failure}
use user_level_threads_libra.Effects.{ok}
use user_level_threads_libra.Nim.State.{unblock_error}
use user_level_threads_libra.Nim.Scheduler.{returns}
use user_level_threads_libra.Nim.Api.{uthread_spawn}
use user_level_threads_libra.Nim.Program.{resume, perform}
use user_level_threads_libra.Nim.Contract.Refusals.{refused, perform-refusal}
use user_level_threads_libra.Nim.Contract.Spawning.{spawned, uthread_spawn-least}
use user_level_threads_libra.Nim.Samples.{
  unix, unix-IsHealthy, trio, trio-Inv, handed_over, handed_over-Inv,
}

uthread_spawn-least_example :
    (id : ℕ) × (uthread_spawn unix 30 trio ≡ ok (returns (pos id)) (spawned unix id 30 4096 trio))
    × (trio.objects id ≡ none)
    × (id < max_thread_num)
    × ((k : ℕ) → k < id → trio.objects k ≢ none)
unfolding trio
uthread_spawn-least_example =
    uthread_spawn-least unix trio 30 4096 unix-IsHealthy trio-Inv (omega arith) refl

perform-refusal_example :
    perform unix (resume (pos 7)) handed_over
    ≡ ok (returns failure) (refused unblock_error handed_over)
perform-refusal_example =
    perform-refusal unix (resume (pos 7)) handed_over unblock_error unix-IsHealthy handed_over-Inv
      refl
