-- ===== src/Uthreads/Invariant/Blocking.antt =====
-- `uthread_block` keeps the invariant.
use user_level_threads_libra.Prelude.{
  ℕ, zero, suc, ◌≡◌, ◌≢◌, refl, true, Option, none, some, ℤ, pos, negsuc, arith,
}
use user_level_threads_libra.Uthreads.State.{
  Os, State, UThread, Status, ready, running, blocked, asleep, terminated, main, update, in_block,
  failure, tid_not_exist, block_thread_zero,
}
use user_level_threads_libra.Uthreads.Process.{set_status}
use user_level_threads_libra.Uthreads.Scheduler.{returns}
use user_level_threads_libra.Uthreads.Api.{block_as, block_found, uthread_block}
use user_level_threads_libra.Uthreads.Invariant.Rules.{step-Ensures, at_thread-eq}
use user_level_threads_libra.Uthreads.Invariant.Switch.{
  block_vt_alarm-Ensures, remask, switch_blocked-Inv,
}
use user_level_threads_libra.Uthreads.Invariant.Defs.{Ensures, Inv}
use user_level_threads_libra.Uthreads.Invariant.Steps.{
  reset_timer-Ensures, fail_with-Inv, resume_alarm-Inv, erase_ready-Ensures,
}

module _ (os : Os) where
  block_as-Inv :
      (st : Status) (tid : ℕ) (u : UThread) {s : State}
      → tid ≢ 0
      → s.all_threads tid ≡ some u
      → u.status ≡ st
      → Inv s
      → Ensures (λ _. Inv) (block_as os st tid (record s { masked = true }))
  unfolding block_as
  block_as-Inv main tid u t0 e st inv = resume_alarm-Inv os (remask os true inv)
  block_as-Inv running tid u {s} t0 e st inv =
      reset_timer-Ensures os (λ _. Inv) _ (record s { masked = true })
        λ v.
          switch_blocked-Inv os s.running_tid in_block (ground (arith, inv.placed tid, e, st)) refl
            (record {
              placed = inv.placed;
              envs = inv.envs;
              known = inv.known;
              here = refl;
              mask = refl;
              ascending = inv.ascending;
            })
  block_as-Inv ready tid u {s} t0 e st inv =
      erase_ready-Ensures os (λ _. Inv) _ tid (record s { masked = true })
        (ground (arith, inv.placed tid, e, st))
        λ ys c.
          step-Ensures (λ _. Inv) (set_status tid blocked) _
            (record s {
              ready_tids = ys;
              blocked_tids = update s.blocked_tids tid true;
              masked = true;
            })
            (at_thread-eq tid _
              (record s {
                ready_tids = ys;
                blocked_tids = update s.blocked_tids tid true;
                masked = true;
              })
              u e)
            (resume_alarm-Inv os (record {
              placed = λ k. ground (arith, inv.placed k, inv.placed tid, e, st, c k);
              envs = λ k h. ground (arith, inv.envs k, inv.envs tid, e);
              known = λ k h. ground (arith, inv.known k, inv.placed tid, e, st);
              here = refl;
              mask = refl;
              ascending = inv.ascending;
            }))
  block_as-Inv blocked tid u t0 e st inv = resume_alarm-Inv os (remask os true inv)
  block_as-Inv asleep tid u {s} t0 e st inv = resume_alarm-Inv os (record {
    placed = λ k. ground (arith, inv.placed k, inv.placed tid, e, st);
    envs = inv.envs;
    known = inv.known;
    here = refl;
    mask = refl;
    ascending = inv.ascending;
  })
  block_as-Inv terminated tid u t0 e st inv = resume_alarm-Inv os (remask os true inv)

  block_found-Inv :
      (o : Option UThread) (tid : ℕ) {s : State}
      → tid ≢ 0
      → s.all_threads tid ≡ o
      → Inv s
      → Ensures (λ _. Inv) (block_found os o tid (record s { masked = true }))
  unfolding block_found
  block_found-Inv none tid t0 e inv =
      fail_with-Inv os (returns failure) tid_not_exist (remask os true inv)
  block_found-Inv (some u) tid t0 e inv = block_as-Inv u.status tid u t0 e refl inv

  pub uthread_block-Inv :
      (tid : ℤ) {s : State} → Inv s → Ensures (λ _. Inv) (uthread_block os tid s)
  unfolding uthread_block
  uthread_block-Inv (negsuc n) {s} inv =
      block_vt_alarm-Ensures os (λ _. Inv) _ s
        (fail_with-Inv os (returns failure) tid_not_exist (remask os true inv))
  uthread_block-Inv (pos zero) {s} inv =
      block_vt_alarm-Ensures os (λ _. Inv) _ s
        (fail_with-Inv os (returns failure) block_thread_zero (remask os true inv))
  uthread_block-Inv (pos (suc t)) {s} inv =
      block_vt_alarm-Ensures os (λ _. Inv) _ s
        (block_found-Inv (s.all_threads (suc t)) (suc t) (ground arith) refl inv)
