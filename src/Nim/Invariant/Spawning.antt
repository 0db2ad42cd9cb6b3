-- ===== src/Nim/Invariant/Spawning.antt =====
-- `uthread_spawn` keeps the invariant.
use user_level_threads_libra.Prelude.{
  ℕ, ◌+◌, ◌<◌, ltb, ◌≡◌, refl, inl, inr, true, ◌∷◌, pos, count, count-snoc, length, Bool-cases,
  Option-cases, arith,
}
use user_level_threads_libra.Effects.{Ensures}
use user_level_threads_libra.Uthreads.State.{max_thread_num}
use user_level_threads_libra.Nim.State.{Os, State, prefix_library_error, spawn_error}
use user_level_threads_libra.Nim.Process.{print_errors, system_error, push_back}
use user_level_threads_libra.Nim.Scheduler.{returns}
use user_level_threads_libra.Nim.Api.{new_thread, get_free_id, spawn_as, uthread_spawn}
use user_level_threads_libra.Nim.Invariant.Defs.{IsOrdering, Inv, After}
use user_level_threads_libra.Nim.Invariant.Steps.{
  count-insert_key, remask, logged, OwnerFits-mono, block-Ensures, leave_with-Ensures,
}
use user_level_threads_libra.Nim.Invariant.Ids.{get_free_id-least}

module _ (os : Os) where
  spawn_as-After :
      (id f : ℕ) {s : State}
      → IsOrdering os
      → id < max_thread_num
      → count id s.all_threads ≡ 0
      → Inv s
      → Ensures After (spawn_as os id f s)
  unfolding spawn_as push_back new_thread system_error
  spawn_as-After id f {s} ord lt free inv = elim (Option-cases os.new_stack) [
    | inl n ↦ rw n tt
    | inr (stack, e) ↦ rw e (
        leave_with-Ensures os After (returns (pos id)) _ inv.alarms (
          record {
            placed = λ k. ground (
              arith,
              inv.placed k,
              inv.placed id,
              free,
              count-snoc k s.ready id,
              count-insert_key os k id s.all_threads ord,
            );
            envs = λ k h. ground (arith, inv.envs k h, inv.placed id, free);
            owned =
                OwnerFits-mono s.mutex.blocked s.mutex.thread_block s.objects _ s.mutex_blocked
                  s.mutex_blocked (λ b n. n) (λ k o live z. (ground arith, z)) inv.owned;
            known = λ k h. ground (arith, inv.known k h);
            here = refl;
            mask = refl;
            alarms = inv.alarms;
          },
          tt,
        ))
  ]

  pub uthread_spawn-After :
      (f : ℕ) {s : State} → IsOrdering os → Inv s → Ensures After (uthread_spawn os f s)
  unfolding uthread_spawn print_errors
  uthread_spawn-After f {s} ord inv =
      block-Ensures os After _ s inv.alarms
        (elim (Bool-cases (ltb max_thread_num (length s.all_threads + 1))) [
          | inl full ↦ rw full (logged true (prefix_library_error spawn_error ∷ s.cerr) inv, tt)
          | inr room ↦
              let (a, b, c, d) =
                get_free_id-least s.all_threads (ground (arith, inv.placed 0))
                  (ground (arith, room)) in
              rw room (spawn_as-After (get_free_id s.all_threads) f ord b c (remask true inv))
        ])
