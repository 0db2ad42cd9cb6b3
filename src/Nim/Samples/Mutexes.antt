-- ===== src/Nim/Samples/Mutexes.antt =====
-- The theorems on the mutex, at concrete states.
use user_level_threads_libra.Prelude.{◌≡◌, refl, false}
use user_level_threads_libra.Uthreads.State.{success}
use user_level_threads_libra.Effects.{ok, undefined, Ensures}
use user_level_threads_libra.Nim.Process.{◌>>=◌}
use user_level_threads_libra.Nim.State.{State, in_lock}
use user_level_threads_libra.Nim.Scheduler.{past_jump, land, returns}
use user_level_threads_libra.Nim.Mutex.{uthread_mutex_lock, uthread_mutex_unlock}
use user_level_threads_libra.Nim.Program.{alarm, perform}
use user_level_threads_libra.Nim.Invariant.Locking.{HasMutex, Locks, uthread_mutex_lock-Locks}
use user_level_threads_libra.Nim.Safety.{land-HasMutex}
use user_level_threads_libra.Nim.Contract.Mutex.{
  HandedOver, uthread_mutex_unlock-HandedOver, uthread_mutex_lock-uthread_mutex_unlock,
  uthread_mutex_lock-undefined,
}
use user_level_threads_libra.Nim.Samples.{
  end_of, unix, unix-IsHealthy, unix-IsOrdering, trio, trio-Inv, owned, owned-Inv, handed_over,
  handed_over-Inv, stranded, stranded-Inv,
}

uthread_mutex_lock-Locks_example : Ensures Locks (uthread_mutex_lock unix trio)
unfolding trio
uthread_mutex_lock-Locks_example =
    uthread_mutex_lock-Locks unix unix-IsOrdering (λ h o n. cc) trio-Inv

land-HasMutex_example :
    Ensures
      (λ c r. (c ≡ returns success) × HasMutex r)
      (land unix past_jump in_lock (end_of (perform unix alarm handed_over)))
unfolding perform
land-HasMutex_example =
    land-HasMutex unix unix alarm handed_over (end_of (perform unix alarm handed_over))
      unix-IsOrdering tt handed_over-Inv refl

uthread_mutex_unlock-HandedOver_example :
    (r : State) × (uthread_mutex_unlock unix owned ≡ ok (returns success) r)
    × HandedOver owned r
    × (r.objects ≡ owned.objects)
    × (r.masked ≡ false)
unfolding owned
uthread_mutex_unlock-HandedOver_example =
    uthread_mutex_unlock-HandedOver unix owned unix-IsHealthy owned-Inv (refl, refl)

uthread_mutex_lock-uthread_mutex_unlock_example :
    (uthread_mutex_lock unix >>= λ _. uthread_mutex_unlock unix) trio
    ≡ ok (returns success) (record trio { masked = false })
unfolding trio
uthread_mutex_lock-uthread_mutex_unlock_example =
    uthread_mutex_lock-uthread_mutex_unlock unix trio unix-IsHealthy trio-Inv refl

uthread_mutex_lock-undefined_example : uthread_mutex_lock unix stranded ≡ undefined
unfolding stranded
uthread_mutex_lock-undefined_example =
    uthread_mutex_lock-undefined unix stranded unix-IsHealthy stranded-Inv refl (λ e. cc) refl
