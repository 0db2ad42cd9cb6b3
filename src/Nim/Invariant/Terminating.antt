-- ===== src/Nim/Invariant/Terminating.antt =====
-- `uthread_terminate` keeps the invariant, if there is a next thread for the one that ends itself.
use user_level_threads_libra.Prelude.{
  ℕ, zero, suc, ◌<◌, ◌==◌, ◌≡◌, ◌≢◌, refl, ap, inl, inr, true, false, none, [], ℤ, pos, negsuc,
  count, contains, Bool-cases, Option-cases, arith,
}
use user_level_threads_libra.Effects.{Ensures, bind-Ensures, step-Ensures, Ensures-mono}
use user_level_threads_libra.Uthreads.State.{success}
use user_level_threads_libra.Nim.State.{Os, State, no_state, in_terminate}
use user_level_threads_libra.Nim.Process.{ok, ◌>>=◌, ◌>>◌, return, get_id}
use user_level_threads_libra.Nim.Scheduler.{
  returns, goes_on, save_env, choose_next, start_thread, move_out, switch_out, switch_thread,
}
use user_level_threads_libra.Nim.Api.{
  free_thread, delete_thread, release_mutex_of, terminate_freed, terminate_found, terminate_id,
  uthread_terminate,
}
use user_level_threads_libra.Nim.Invariant.Defs.{Inv, Chosen, After, Jumped, Jumped-After}
use user_level_threads_libra.Nim.Invariant.Steps.{
  get_id-eq, remask, block-Ensures, leave_with-Ensures, choose_next-Ensures,
}
use user_level_threads_libra.Nim.Invariant.Switch.{at_object-eq, non_empty, start_thread-Jumped}
use user_level_threads_libra.Nim.Invariant.Locking.{fail_with-Ensures}
use user_level_threads_libra.Nim.Invariant.Freeing.{
  Ending, freed, gone, release_mutex_of-Ending, free_thread-eq, other-Inv, next-Chosen,
}

module _ (os : Os) where
  module _ (tid r : ℕ) (t0 : tid ≢ 0) {t : State} (end : Ending r tid t) where
    -- The running thread ends itself: it is saved, the next one is chosen, and the object is deleted.
    ends_itself :
        tid ≡ r
        → t.objects tid ≢ none
        → Ensures After (
            (switch_thread os no_state true false in_terminate >>= λ _.
            delete_thread tid >> start_thread)
              (freed tid t))
    unfolding switch_thread switch_out move_out save_env
    ends_itself e here = elim (Option-cases (t.objects tid)) [
      | inl n ↦ absurd (here n)
      | inr (u, q) ↦
          let (p, rest, n) = non_empty t.ready (end.2 e) in
          bind-Ensures (λ _ x. Chosen true (gone tid x)) After
            (switch_thread os no_state true false in_terminate) _ (freed tid t)
            (bind-Ensures (λ _ x. Chosen true (gone tid x)) (λ _ x. Chosen true (gone tid x))
              (switch_out os no_state true in_terminate) (λ _. return goes_on) (freed tid t)
              (step-Ensures (λ _ x. Chosen true (gone tid x)) (save_env t.running in_terminate)
                (λ _. choose_next os true) (freed tid t)
                (at_object-eq t.running _ (freed tid t) u (ground (arith, q, e, end.0.here)))
                (choose_next-Ensures os (λ x. Chosen true (gone tid x)) true p rest _
                  (ground (arith, n, end.0.placed tid, e, q))
                  (λ v a.
                    next-Chosen tid r t0 here end p t.running rest _ v a e
                      (ground (arith, e, end.0.here)) n)))
              (λ _ x h. h))
            λ _ x h. Ensures-mono Jumped After _ (start_thread-Jumped h) Jumped-After
    ]

    running_known : get_id t.running (freed tid t) ≡ ok t.running (freed tid t)
    running_known = elim (Option-cases (t.objects t.running)) [
      | inl n ↦ absurd (end.0.known t.running (ground (arith, end.0.here)) n)
      | inr (u, q) ↦
          get_id-eq t.running (freed tid t) u q (ground (arith, end.0.placed t.running, q))
    ]

    terminate_freed-After :
        t.objects tid ≢ none → Ensures After (terminate_freed os tid (freed tid t))
    unfolding terminate_freed
    terminate_freed-After here =
        step-Ensures After (get_id t.running) _ (freed tid t) running_known
          (elim (Bool-cases (tid == t.running)) [
            | inl mine ↦ rw mine (ends_itself (ground (arith, mine, end.0.here)) here)
            | inr other ↦ rw other (
                leave_with-Ensures os After (returns success) (gone tid (freed tid t)) end.0.alarms
                  (other-Inv tid r t0 here end (ground (arith, other, end.0.here)), tt))
          ])

  terminate_found-After :
      (tid : ℕ) {s : State}
      → tid ≢ 0
      → s.masked ≡ true
      → 0 < count tid s.all_threads
      → (tid ≡ s.running → s.ready ≢ [])
      → Inv s
      → Ensures After (terminate_found os tid s)
  unfolding terminate_found
  terminate_found-After tid {s} t0 m known next inv =
      bind-Ensures (λ _. Ending s.running tid) After (release_mutex_of os tid) _ s
        (release_mutex_of-Ending os tid next (record {
          placed = inv.placed;
          envs = λ k h. inv.envs k (ground (arith, h));
          owned = inv.owned;
          known = λ k h. ground (arith, h, inv.known k, inv.placed tid, known);
          here = inv.here;
          mask = m;
          alarms = inv.alarms;
        }))
        λ _ t end.
          step-Ensures After (free_thread tid) _ t (free_thread-eq tid end.0)
            (terminate_freed-After tid s.running t0 end (end.0.known tid (ground arith)))

  terminate_id-After :
      (tid : ℤ) {s : State}
      → s.masked ≡ true
      → (tid ≡ pos s.running → s.ready ≢ [])
      → Inv s
      → Ensures After (terminate_id os tid s)
  unfolding terminate_id
  terminate_id-After (negsuc n) m next inv = fail_with-Ensures os After _ inv (λ t i. (i, tt))
  terminate_id-After (pos zero) {s} m next inv = elim (Bool-cases (contains 0 s.all_threads)) [
    | inl e ↦ rw e tt
    | inr e ↦ rw e (fail_with-Ensures os After _ inv (λ t i. (i, tt)))
  ]
  terminate_id-After (pos (suc t)) {s} m next inv =
      elim (Bool-cases (contains (suc t) s.all_threads)) [
        | inl e ↦ rw e (
            terminate_found-After (suc t) (ground arith) m (ground (arith, e))
              (λ q. next (ap pos q)) inv)
        | inr e ↦ rw e (fail_with-Ensures os After _ inv (λ t i. (i, tt)))
      ]

  pub uthread_terminate-After :
      (tid : ℤ) {s : State}
      → (tid ≡ pos s.running → s.ready ≢ [])
      → Inv s
      → Ensures After (uthread_terminate os tid s)
  unfolding uthread_terminate
  uthread_terminate-After tid {s} next inv =
      block-Ensures os After _ s inv.alarms (terminate_id-After tid refl next (remask true inv))
