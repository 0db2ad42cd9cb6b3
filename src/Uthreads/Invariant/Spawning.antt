-- ===== src/Uthreads/Invariant/Spawning.antt =====
-- `uthread_spawn` keeps the invariant.
use user_level_threads_libra.Prelude.{
  ℕ, zero, suc, ◌+◌, Bool, Option, none, one_at, count, ◌≡◌, refl, subst, IsAscending, inl, inr,
  true, List, [], ◌∷◌, count-snoc, Option-cases, arith,
}
use user_level_threads_libra.Uthreads.State.{
  Os, State, UThread, failure, max_threads_err, spawn_null,
}
use user_level_threads_libra.Uthreads.Scheduler.{returns}
use user_level_threads_libra.Uthreads.Api.{emplace, new_thread, spawn_as, spawn_from, uthread_spawn}
use user_level_threads_libra.Uthreads.Invariant.Switch.{
  block_vt_alarm-Ensures, unblock_vt_alarm-Ensures, remask,
}
use user_level_threads_libra.Uthreads.Invariant.Defs.{keys, Fits, Ensures, Inv}
use user_level_threads_libra.Uthreads.Invariant.Steps.{fail_with-Inv}

-- The new thread takes its id out of the free ones and stands in the ready queue.
Fits-spawned :
    (os : Os) (tid pc stack k : ℕ) (m : ℕ → Option UThread) (r q z f : ℕ) (b : Bool)
    → m tid ≡ none
    → Fits k (m k) r q z b (one_at tid k + f)
    → Fits k (emplace tid (new_thread os tid pc stack) m k) r (q + one_at tid k) z b f
unfolding emplace new_thread
Fits-spawned os tid pc stack k m r q z f b e h = ground arith

module _ (os : Os) where
  spawn_as-Inv :
      (tid : ℕ) (others : List ℕ) (pc : ℕ) {s : State}
      → s.free_ids ≡ tid ∷ others
      → Inv s
      → Ensures (λ _. Inv) (spawn_as os tid others pc s)
  unfolding spawn_as
  spawn_as-Inv tid others pc {s} e inv = elim (Option-cases os.new_stack) [
    | inl n ↦ rw (n, spawn_as) tt
    | inr (stack, n) ↦ elim (Option-cases (s.all_threads tid)) [
      | inr (u, q) ↦ absurd (ground (arith, inv.placed tid, e, q))
      | inl q ↦
          rw (n, spawn_as)
            (unblock_vt_alarm-Ensures os (λ _. Inv) _ _
              (record {
                placed = λ k. rw (count-snoc k s.ready_tids tid) (
                    Fits-spawned os tid pc stack k s.all_threads (one_at s.running_tid k)
                      (count k s.ready_tids) (count k (keys s.sleepers) + 0) (count k others)
                      (s.blocked_tids k) q
                      (subst
                        (λ ids.
                          Fits k (s.all_threads k) (one_at s.running_tid k) (count k s.ready_tids)
                            (count k (keys s.sleepers) + 0) (s.blocked_tids k) (count k ids))
                        e (inv.placed k)));
                envs = λ k h. ground (arith, inv.envs k h, q);
                known = λ k h. ground (arith, inv.known k h, q);
                here = refl;
                mask = refl;
                ascending = (subst IsAscending e inv.ascending).1;
              }))
    ]
  ]

  pub uthread_spawn-Inv :
      (entry_point : ℕ) {s : State} → Inv s → Ensures (λ _. Inv) (uthread_spawn os entry_point s)
  unfolding uthread_spawn
  uthread_spawn-Inv pc {s} inv = block_vt_alarm-Ensures os (λ _. Inv) _ s (from s.free_ids pc refl)
    where
      from :
          (ids : List ℕ) (n : ℕ)
          → s.free_ids ≡ ids
          → Ensures (λ _. Inv) (spawn_from os ids n (record s { masked = true }))
      from [] n e = fail_with-Inv os (returns failure) max_threads_err (remask os true inv)
      from (t ∷ ids) zero e = fail_with-Inv os (returns failure) spawn_null (remask os true inv)
      from (t ∷ ids) (suc n) e = spawn_as-Inv t ids (suc n) e (remask os true inv)
