-- ===== src/Nim/Samples/Runs.antt =====
-- The theorems on whole runs and on alarms, at concrete states.
use user_level_threads_libra.Prelude.{◌≡◌, ◌≢◌, refl, none, [], ◌∷◌, pos}
use user_level_threads_libra.Effects.{Ensures, Returns}
use user_level_threads_libra.Nim.Process.{◌>>=◌}
use user_level_threads_libra.Nim.State.{zeroed, in_handler}
use user_level_threads_libra.Nim.Scheduler.{past_jump, at_save, land, alarm_sig_handler}
use user_level_threads_libra.Nim.Api.{uthread_init}
use user_level_threads_libra.Nim.Program.{mutex_lock, perform, settle, run}
use user_level_threads_libra.Nim.Invariant.Defs.{Inv, After}
use user_level_threads_libra.Nim.Safety.{step-Inv, history-Inv, uthread_init-After}
use user_level_threads_libra.Nim.Turns.{
  Rotated, queue, alarm_sig_handler-Rotated, expire, expire-reaches,
}
use user_level_threads_libra.Nim.Contract.Landings.{Lost, land-Lost}
use user_level_threads_libra.Nim.Samples.{
  unix, unix-IsHealthy, unix-IsOrdering, two_spawns, start, start-Inv, trio, trio-Inv, handed_over,
  handed_over-Inv,
}

uthread_init-After_example : Ensures (λ _. Inv) (uthread_init unix (pos 1000) zeroed)
uthread_init-After_example = uthread_init-After unix 999 unix-IsOrdering

step-Inv_example : Ensures (λ _. Inv) ((perform unix mutex_lock >>= settle past_jump unix) trio)
unfolding trio
step-Inv_example = step-Inv unix mutex_lock trio unix-IsOrdering (λ h o n. cc) trio-Inv

history-Inv_example : Ensures (λ _. Inv) (run past_jump two_spawns start)
history-Inv_example =
    history-Inv two_spawns start start-Inv
      (unix-IsOrdering, tt, λ c t e. (unix-IsOrdering, tt, λ d r f. tt))

land-Lost_example :
    Returns
      (λ _ t. (t.running ≡ 2) × Lost 0 t × (t.objects 0 ≢ none) × (¬ Inv t))
      (land unix at_save in_handler handed_over)
land-Lost_example = land-Lost unix handed_over 2 (1 ∷ []) handed_over-Inv refl

alarm_sig_handler-Rotated_example :
    Returns (λ c t. After c t × Rotated trio (queue trio) t) (alarm_sig_handler unix trio)
alarm_sig_handler-Rotated_example = alarm_sig_handler-Rotated unix-IsHealthy trio trio-Inv

expire-reaches_example :
    Returns (λ _ r. Inv r × (r.running ≡ 2) × (r.mutex ≡ trio.mutex)) (expire unix 2 trio)
unfolding trio
expire-reaches_example = expire-reaches unix (1 ∷ []) 2 [] trio unix-IsHealthy trio-Inv refl
