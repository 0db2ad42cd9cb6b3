-- ===== src/Uthreads/Samples/Calls.antt =====
-- The theorems on single calls of the library, at concrete states.
use user_level_threads_libra.Prelude.{
  ℕ, ◌+◌, ◌*◌, ◌<◌, ◌≡◌, ◌≢◌, ◌↔◌, refl, inl, false, none, some, List, [], ◌∷◌, ◌++◌, pos,
  erase_found,
}
use user_level_threads_libra.Uthreads.State.{
  State, zeroed, success, failure, micro_to_sec, max_thread_num, max_threads_err, block_thread_zero,
  update,
}
use user_level_threads_libra.Uthreads.Process.{ok, ◌>>=◌}
use user_level_threads_libra.Uthreads.Scheduler.{returns}
use user_level_threads_libra.Uthreads.Api.{
  uthread_init, uthread_spawn, uthread_block, uthread_resume, uthread_terminate, new_thread,
}
use user_level_threads_libra.Uthreads.Program.{block, perform}
use user_level_threads_libra.Uthreads.Invariant.Defs.{Returns, Inv}
use user_level_threads_libra.Uthreads.Safety.{initial}
use user_level_threads_libra.Uthreads.Rotation.Spec.{others}
use user_level_threads_libra.Uthreads.Signals.{quantum_timer}
use user_level_threads_libra.Uthreads.Healthy.{quantum_timer_lem}
use user_level_threads_libra.Uthreads.Contract.Init.{uthread_init_lem}
use user_level_threads_libra.Uthreads.Contract.Refusals.{refused, perform-refused}
use user_level_threads_libra.Uthreads.Contract.Spawning.{
  number, uthread_spawn_lem, uthread_spawn-full,
}
use user_level_threads_libra.Uthreads.Contract.Resuming.{uthread_block-uthread_resume}
use user_level_threads_libra.Uthreads.Contract.Termination.{Terminates, uthread_terminate_lem}
use user_level_threads_libra.Uthreads.Samples.{linux, linux-IsHealthy, three, three-Inv}

perform-refused_example :
    perform linux (block (pos 0)) three ≡ ok (returns failure) (refused block_thread_zero three)
perform-refused_example =
    perform-refused linux (block (pos 0)) three block_thread_zero linux-IsHealthy refl

uthread_spawn-full_example :
    ((number (uthread_spawn linux 30 three) ≡ some failure)
      ↔ ((k : ℕ) → k < max_thread_num → three.all_threads k ≢ none))
    × (((k : ℕ) → k < max_thread_num → three.all_threads k ≢ none)
        → uthread_spawn linux 30 three ≡ ok (returns failure) (refused max_threads_err three))
uthread_spawn-full_example = uthread_spawn-full linux three 29 4096 linux-IsHealthy three-Inv refl

uthread_spawn_lem_example :
    (uthread_spawn linux 30 three
      ≡ ok (returns (pos 3)) (record three {
        free_ids = others three.free_ids;
        all_threads = update three.all_threads 3 (some (new_thread linux 3 30 4096));
        ready_tids = three.ready_tids ++ 3 ∷ [];
        masked = false;
      }))
    × (three.all_threads 3 ≡ none)
    × ((k : ℕ) → k < 3 → three.all_threads k ≢ none)
unfolding three
uthread_spawn_lem_example =
    uthread_spawn_lem linux three 29 3 4096 (others three.free_ids) linux-IsHealthy three-Inv refl
      refl

uthread_block-uthread_resume_example :
    (ys : List ℕ) × (r : State) × (erase_found 1 three.ready_tids ≡ some ys)
    × ((uthread_block linux (pos 1) >>= λ _. uthread_resume linux (pos 1)) three
        ≡ ok (returns success) r)
    × (r.ready_tids ≡ ys ++ 1 ∷ [])
    × ((k : ℕ) → r.all_threads k ≡ three.all_threads k)
    × ((k : ℕ) → r.blocked_tids k ≡ three.blocked_tids k)
unfolding three
uthread_block-uthread_resume_example =
    uthread_block-uthread_resume linux three 0 (new_thread linux 1 10 4096) linux-IsHealthy
      three-Inv refl refl

uthread_terminate_lem_example : Returns (Terminates 1 three) (uthread_terminate linux (pos 1) three)
unfolding three
uthread_terminate_lem_example =
    uthread_terminate_lem linux three 0 (new_thread linux 1 10 4096) linux-IsHealthy three-Inv refl
      (inl refl)

quantum_timer_lem_example :
    ((quantum_timer 2_500_000).value.sec * micro_to_sec + (quantum_timer 2_500_000).value.usec
      ≡ 2_500_000)
    × ((quantum_timer 2_500_000).value.usec < micro_to_sec)
    × ((quantum_timer 2_500_000).interval ≡ (quantum_timer 2_500_000).value)
quantum_timer_lem_example = quantum_timer_lem 2_500_000

uthread_init_lem_example :
    (uthread_init linux (pos 1000) zeroed ≡ ok (returns success) (initial 1000))
    × Inv (initial 1000)
    × ((initial 1000).timer ≡ quantum_timer 1000)
    × ((initial 1000).total_quantums ≡ 1)
uthread_init_lem_example = uthread_init_lem linux 999 4096 linux-IsHealthy refl
