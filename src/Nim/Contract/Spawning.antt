-- ===== src/Nim/Contract/Spawning.antt =====
-- `uthread_spawn` while there is room.
use user_level_threads_libra.Prelude.{
  ℕ, ◌+◌, ◌<◌, ◌≡◌, ◌≢◌, inl, inr, false, ltb, none, some, [], ◌∷◌, ◌++◌, pos, count, length,
  Option-cases, arith,
}
use user_level_threads_libra.Effects.{bind-eq}
use user_level_threads_libra.Uthreads.State.{update, max_thread_num}
use user_level_threads_libra.Nim.State.{Os, State}
use user_level_threads_libra.Nim.Process.{ok, push_back}
use user_level_threads_libra.Nim.Signals.{block}
use user_level_threads_libra.Nim.Scheduler.{returns, insert_key}
use user_level_threads_libra.Nim.Api.{new_thread, get_free_id, spawn_as, uthread_spawn}
use user_level_threads_libra.Nim.Invariant.Defs.{Inv}
use user_level_threads_libra.Nim.Invariant.Ids.{get_free_id-least}
use user_level_threads_libra.Nim.Healthy.{IsHealthy, block-eq, leave_with-eq}

-- The state after a new thread with the id `id` has been put at the end of the ready queue.
abbrev pub spawned : Os → ℕ → ℕ → ℕ → State → State
spawned os id f stack s = record s {
  objects = update s.objects id (some (new_thread os id f stack));
  all_threads = insert_key os id s.all_threads;
  ready = s.ready ++ id ∷ [];
  masked = false;
}

-- On a healthy system with memory and under the invariant, while fewer than MAX_THREAD_NUM threads exist,
-- `uthread_spawn` returns the least id that no thread has and puts a new thread of that id at the end of the
-- ready queue; nothing else changes, and SIGVTALRM is not blocked.
pub uthread_spawn-least :
    (os : Os) (s : State) (f stack : ℕ)
    → IsHealthy os
    → Inv s
    → length s.all_threads < max_thread_num
    → os.new_stack ≡ some stack
    → (id : ℕ) × (uthread_spawn os f s ≡ ok (returns (pos id)) (spawned os id f stack s))
      × (s.objects id ≡ none)
      × (id < max_thread_num)
      × ((k : ℕ) → k < id → s.objects k ≢ none)
unfolding uthread_spawn spawn_as push_back
uthread_spawn-least os s f stack well inv room n =
    let (a, b, c, d) = get_free_id-least s.all_threads (ground (arith, inv.placed 0)) room in
    (
      get_free_id s.all_threads,
      bind-eq (block os) _ s (block-eq well s inv.alarms) (
          rw (few, n)
            (leave_with-eq well (returns (pos (get_free_id s.all_threads))) _ inv.alarms)),
      free (get_free_id s.all_threads) c,
      b,
      λ k lt e. used k (d k lt) e,
    )
  where
    few : ltb max_thread_num (length s.all_threads + 1) ≡ false
    few = ground arith

    free : (k : ℕ) → count k s.all_threads ≡ 0 → s.objects k ≡ none
    free k z = elim (Option-cases (s.objects k)) [
      | inl e ↦ e
      | inr (u, e) ↦ absurd (ground (arith, inv.placed k, e, z))
    ]

    used : (k : ℕ) → 0 < count k s.all_threads → s.objects k ≢ none
    used k h e = ground (arith, inv.placed k, e, h)
