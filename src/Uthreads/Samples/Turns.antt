-- ===== src/Uthreads/Samples/Turns.antt =====
-- The theorems on whole runs and on quantum expiries, at concrete states.
use user_level_threads_libra.Prelude.{◌+◌, ◌≡◌, refl, [], ◌∷◌, pos}
use user_level_threads_libra.Uthreads.State.{zeroed}
use user_level_threads_libra.Uthreads.Scheduler.{timer_handler}
use user_level_threads_libra.Uthreads.Api.{uthread_init}
use user_level_threads_libra.Uthreads.Program.{block, perform, run}
use user_level_threads_libra.Uthreads.Invariant.Defs.{Ensures, Returns, Inv}
use user_level_threads_libra.Uthreads.Safety.{
  initial, initial-Inv, perform-Inv, run-Inv, uthread_init-Inv,
}
use user_level_threads_libra.Uthreads.WakeUp.{Sleeps, Queued, expire-Sleeps, expire-Queued}
use user_level_threads_libra.Uthreads.RoundRobin.{
  Turned, timer_handler-Turned, expire, expire-first,
}
use user_level_threads_libra.Uthreads.Samples.{
  linux, linux-IsHealthy, two_spawns, two_spawns-AllAllowed, three, three-Inv, napping, napping-Inv,
}

run-Inv_example : Ensures (λ _. Inv) (run two_spawns (initial 1000))
run-Inv_example = run-Inv two_spawns (initial 1000) (initial-Inv 1000) two_spawns-AllAllowed

uthread_init-Inv_example : Ensures (λ _. Inv) (uthread_init linux (pos 1000) zeroed)
uthread_init-Inv_example = uthread_init-Inv linux 999

perform-Inv_example : Ensures (λ _. Inv) (perform linux (block (pos 1)) three)
perform-Inv_example = perform-Inv linux (block (pos 1)) three three-Inv tt

timer_handler-Turned_example :
    Returns (λ _ t. Inv t × Turned napping t) (timer_handler linux napping)
timer_handler-Turned_example = timer_handler-Turned linux napping linux-IsHealthy napping-Inv

expire-first_example : Returns (λ _ r. Inv r × (r.running_tid ≡ 2)) (expire linux 2 three)
unfolding three
expire-first_example = expire-first linux (1 ∷ []) 2 [] three linux-IsHealthy three-Inv refl

expire-Sleeps_example :
    Returns
      (λ _ r. Sleeps 1 0 r × (¬ Queued 1 r) × (r.total_quantums ≡ napping.total_quantums + 1))
      (expire linux 1 napping)
unfolding napping
expire-Sleeps_example = expire-Sleeps linux 1 0 1 napping linux-IsHealthy napping-Inv (refl, refl)

expire-Queued_example :
    Returns
      (λ _ r. Inv r × Queued 1 r × (r.total_quantums ≡ napping.total_quantums + 2))
      (expire linux 2 napping)
unfolding napping
expire-Queued_example = expire-Queued linux 1 1 napping linux-IsHealthy napping-Inv (refl, refl)
