-- ===== src/Uthreads/Invariant/Resuming.antt =====
-- `uthread_resume` keeps the invariant.
use user_level_threads_libra.Prelude.{
  ℕ, ◌≡◌, refl, true, false, Option, none, some, [], ◌∷◌, ◌++◌, ℤ, pos, negsuc, count-snoc, arith,
}
use user_level_threads_libra.Uthreads.State.{
  Os, State, UThread, Status, ready, running, blocked, asleep, terminated, main, update, failure,
  tid_not_exist,
}
use user_level_threads_libra.Uthreads.Process.{set_status}
use user_level_threads_libra.Uthreads.Scheduler.{returns}
use user_level_threads_libra.Uthreads.Api.{resume_as, resume_found, uthread_resume}
use user_level_threads_libra.Uthreads.Invariant.Rules.{step-Ensures, at_thread-eq}
use user_level_threads_libra.Uthreads.Invariant.Switch.{block_vt_alarm-Ensures, remask}
use user_level_threads_libra.Uthreads.Invariant.Defs.{Ensures, Inv}
use user_level_threads_libra.Uthreads.Invariant.Steps.{fail_with-Inv, resume_alarm-Inv}

module _ (os : Os) where
  resume_as-Inv :
      (st : Status) (tid : ℕ) (u : UThread) {s : State}
      → s.all_threads tid ≡ some u
      → u.status ≡ st
      → Inv s
      → Ensures (λ _. Inv) (resume_as os st tid (record s { masked = true }))
  unfolding resume_as
  resume_as-Inv main tid u e st inv = resume_alarm-Inv os (remask os true inv)
  resume_as-Inv running tid u e st inv = resume_alarm-Inv os (remask os true inv)
  resume_as-Inv ready tid u e st inv = resume_alarm-Inv os (remask os true inv)
  resume_as-Inv blocked tid u {s} e st inv =
      step-Ensures (λ _. Inv) (set_status tid ready) _ woken (at_thread-eq tid _ woken u e)
        (resume_alarm-Inv os (record {
          placed = λ k.
              ground (arith, inv.placed k, inv.placed tid, e, st, count-snoc k s.ready_tids tid);
          envs = λ k h. ground (arith, inv.envs k, inv.envs tid, e);
          known = λ k h. ground (arith, inv.known k, inv.placed tid, e, st);
          here = refl;
          mask = refl;
          ascending = inv.ascending;
        }))
    where
      woken : State
      woken = record s {
        blocked_tids = update s.blocked_tids tid false;
        ready_tids = s.ready_tids ++ tid ∷ [];
        masked = true;
      }
  resume_as-Inv asleep tid u {s} e st inv = resume_alarm-Inv os (record {
    placed = λ k. ground (arith, inv.placed k, inv.placed tid, e, st);
    envs = inv.envs;
    known = inv.known;
    here = refl;
    mask = refl;
    ascending = inv.ascending;
  })
  resume_as-Inv terminated tid u e st inv = resume_alarm-Inv os (remask os true inv)

  resume_found-Inv :
      (o : Option UThread) (tid : ℕ) {s : State}
      → s.all_threads tid ≡ o
      → Inv s
      → Ensures (λ _. Inv) (resume_found os o tid (record s { masked = true }))
  unfolding resume_found
  resume_found-Inv none tid e inv =
      fail_with-Inv os (returns failure) tid_not_exist (remask os true inv)
  resume_found-Inv (some u) tid e inv = resume_as-Inv u.status tid u e refl inv

  pub uthread_resume-Inv :
      (tid : ℤ) {s : State} → Inv s → Ensures (λ _. Inv) (uthread_resume os tid s)
  unfolding uthread_resume
  uthread_resume-Inv (negsuc n) {s} inv =
      block_vt_alarm-Ensures os (λ _. Inv) _ s
        (fail_with-Inv os (returns failure) tid_not_exist (remask os true inv))
  uthread_resume-Inv (pos t) {s} inv =
      block_vt_alarm-Ensures os (λ _. Inv) _ s (resume_found-Inv (s.all_threads t) t refl inv)
