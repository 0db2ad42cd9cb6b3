-- ===== src/Uthreads/Invariant/Terminating.antt =====
-- `uthread_terminate` keeps the invariant, unless the thread sleeps.
use user_level_threads_libra.Prelude.{
  ℕ, zero, suc, ◌≡◌, ◌≢◌, refl, true, Option, none, some, ℤ, pos, negsuc, insert_sorted,
  count-insert_sorted, insert_sorted-IsAscending, arith,
}
use user_level_threads_libra.Uthreads.State.{
  Os, State, UThread, Status, ready, running, blocked, asleep, terminated, main, update,
  in_terminate, failure, tid_not_exist,
}
use user_level_threads_libra.Uthreads.Scheduler.{returns}
use user_level_threads_libra.Uthreads.Api.{
  terminate_as, terminate_found, uthread_terminate, thread_of,
}
use user_level_threads_libra.Uthreads.Program.{NotAsleep}
use user_level_threads_libra.Uthreads.Invariant.Switch.{
  block_vt_alarm-Ensures, unblock_vt_alarm-Ensures, remask, switch_terminated-Inv,
}
use user_level_threads_libra.Uthreads.Invariant.Defs.{Ensures, Inv}
use user_level_threads_libra.Uthreads.Invariant.Steps.{
  reset_timer-Ensures, fail_with-Inv, resume_alarm-Inv, erase_ready-Ensures,
}

module _ (os : Os) where
  -- The state in which `terminate_as` starts.
  abbrev removed : ℕ → State → State
  removed tid s = record s {
    free_ids = insert_sorted tid s.free_ids;
    all_threads = update s.all_threads tid none;
    masked = true;
  }

  terminate_as-Inv :
      (st : Status) (tid : ℕ) (u : UThread) {s : State}
      → tid ≢ 0
      → st ≢ asleep
      → s.all_threads tid ≡ some u
      → u.status ≡ st
      → Inv s
      → Ensures (λ _. Inv) (terminate_as os st tid (removed tid s))
  unfolding terminate_as
  terminate_as-Inv main tid u {s} t0 na e st inv = absurd (ground (arith, inv.placed tid, e, st))
  terminate_as-Inv running tid u {s} t0 na e st inv =
      reset_timer-Ensures os (λ _. Inv) _ (removed tid s)
        λ v.
          unblock_vt_alarm-Ensures os (λ _. Inv) _
            (record (removed tid s) { timer = v; armed = true })
            (switch_terminated-Inv os s.running_tid in_terminate (record {
              placed = λ k. ground (
                arith,
                inv.placed k,
                inv.placed tid,
                e,
                st,
                count-insert_sorted k tid s.free_ids,
              );
              envs = λ k h. ground (arith, inv.envs k, inv.placed tid, e, st);
              known = λ k h. absurd (cc);
              here = refl;
              mask = refl;
              ascending = insert_sorted-IsAscending tid s.free_ids inv.ascending;
            }))
  terminate_as-Inv ready tid u {s} t0 na e st inv =
      erase_ready-Ensures os (λ _. Inv) _ tid (removed tid s)
        (ground (arith, inv.placed tid, e, st))
        λ ys c. resume_alarm-Inv os (record {
          placed = λ k. ground (
            arith,
            inv.placed k,
            inv.placed tid,
            e,
            st,
            count-insert_sorted k tid s.free_ids,
            c k,
          );
          envs = λ k h. ground (arith, inv.envs k, e);
          known = λ k h. ground (arith, inv.known k, inv.placed tid, e, st);
          here = refl;
          mask = refl;
          ascending = insert_sorted-IsAscending tid s.free_ids inv.ascending;
        })
  terminate_as-Inv blocked tid u {s} t0 na e st inv = resume_alarm-Inv os (record {
    placed = λ k.
        ground (arith, inv.placed k, inv.placed tid, e, st, count-insert_sorted k tid s.free_ids);
    envs = λ k h. ground (arith, inv.envs k, e);
    known = λ k h. ground (arith, inv.known k, inv.placed tid, e, st);
    here = refl;
    mask = refl;
    ascending = insert_sorted-IsAscending tid s.free_ids inv.ascending;
  })
  terminate_as-Inv asleep tid u {s} t0 na e st inv = absurd (na refl)
  terminate_as-Inv terminated tid u {s} t0 na e st inv =
      absurd (ground (arith, inv.placed tid, e, st))

  terminate_found-Inv :
      (o : Option UThread) (tid : ℕ) {s : State}
      → tid ≢ 0
      → NotAsleep o
      → s.all_threads tid ≡ o
      → Inv s
      → Ensures (λ _. Inv) (terminate_found os o tid (record s { masked = true }))
  unfolding terminate_found
  terminate_found-Inv none tid t0 na e inv =
      fail_with-Inv os (returns failure) tid_not_exist (remask os true inv)
  terminate_found-Inv (some u) tid t0 na e inv = terminate_as-Inv u.status tid u t0 na e refl inv

  -- The process ends if the main thread is terminated.
  pub uthread_terminate-Inv :
      (tid : ℤ) {s : State}
      → NotAsleep (thread_of tid s.all_threads)
      → Inv s
      → Ensures (λ _. Inv) (uthread_terminate os tid s)
  unfolding uthread_terminate
  uthread_terminate-Inv (negsuc n) {s} na inv =
      block_vt_alarm-Ensures os (λ _. Inv) _ s
        (fail_with-Inv os (returns failure) tid_not_exist (remask os true inv))
  uthread_terminate-Inv (pos zero) {s} na inv = block_vt_alarm-Ensures os (λ _. Inv) _ s tt
  uthread_terminate-Inv (pos (suc t)) {s} na inv =
      block_vt_alarm-Ensures os (λ _. Inv) _ s
        (terminate_found-Inv (s.all_threads (suc t)) (suc t) (ground arith) na refl inv)
