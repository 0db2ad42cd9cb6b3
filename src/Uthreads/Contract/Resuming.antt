-- ===== src/Uthreads/Contract/Resuming.antt =====
-- `uthread_block` on a ready thread, and `uthread_resume` after it.
use user_level_threads_libra.Prelude.{
  ℕ, suc, ◌≡◌, refl, true, false, some, List, [], ◌∷◌, ◌++◌, pos, erase_found, erase_found-some,
  arith,
}
use user_level_threads_libra.Uthreads.State.{Os, State, UThread, ready, blocked, update, success}
use user_level_threads_libra.Uthreads.Process.{ok, ◌>>=◌, set_status, at_thread}
use user_level_threads_libra.Uthreads.Scheduler.{returns}
use user_level_threads_libra.Uthreads.Api.{
  erase_ready, block_as, block_found, block_id, uthread_block, resume_as, resume_found, resume_id,
  uthread_resume,
}
use user_level_threads_libra.Uthreads.Healthy.{IsHealthy, block_vt_alarm-eq, unblock_vt_alarm-eq}
use user_level_threads_libra.Uthreads.Invariant.Rules.{bind-eq}
use user_level_threads_libra.Uthreads.Invariant.Defs.{Inv}

-- `uthread_block` on a ready thread.
pub block_ready-eq :
    (os : Os) (s : State) (t : ℕ) (u : UThread) (ys : List ℕ)
    → IsHealthy os
    → s.all_threads (suc t) ≡ some u
    → u.status ≡ ready
    → erase_found (suc t) s.ready_tids ≡ some ys
    → uthread_block os (pos (suc t)) s
      ≡ ok (returns success) (record s {
        all_threads = update s.all_threads (suc t) (some (record u { status = blocked }));
        blocked_tids = update s.blocked_tids (suc t) true;
        ready_tids = ys;
        masked = false;
      })
unfolding uthread_block block_id block_found block_as erase_ready set_status at_thread
block_ready-eq os s t u ys well e st q = ground (
  arith,
  block_vt_alarm-eq well s,
  unblock_vt_alarm-eq well (record s {
    all_threads = update s.all_threads (suc t) (some (record u { status = blocked }));
    blocked_tids = update s.blocked_tids (suc t) true;
    ready_tids = ys;
    masked = true;
  }),
)

-- `uthread_resume` on a blocked thread.
pub resume_blocked-eq :
    (os : Os) (s : State) (t : ℕ) (u : UThread)
    → IsHealthy os
    → s.all_threads t ≡ some u
    → u.status ≡ blocked
    → uthread_resume os (pos t) s
      ≡ ok (returns success) (record s {
        all_threads = update s.all_threads t (some (record u { status = ready }));
        blocked_tids = update s.blocked_tids t false;
        ready_tids = s.ready_tids ++ t ∷ [];
        masked = false;
      })
unfolding uthread_resume resume_id resume_found resume_as set_status at_thread
resume_blocked-eq os s t u well e st = ground (
  arith,
  block_vt_alarm-eq well s,
  unblock_vt_alarm-eq well (record s {
    all_threads = update s.all_threads t (some (record u { status = ready }));
    blocked_tids = update s.blocked_tids t false;
    ready_tids = s.ready_tids ++ t ∷ [];
    masked = true;
  }),
)

-- On a healthy system and under the invariant, to block a ready thread other than the main thread and
-- then to resume it moves it to the end of the ready queue, and leaves every
-- thread and the set of blocked threads as they were.
pub uthread_block-uthread_resume :
    (os : Os) (s : State) (t : ℕ) (u : UThread)
    → IsHealthy os
    → Inv s
    → s.all_threads (suc t) ≡ some u
    → u.status ≡ ready
    → (ys : List ℕ) × (r : State) × (erase_found (suc t) s.ready_tids ≡ some ys)
      × ((uthread_block os (pos (suc t)) >>= λ _. uthread_resume os (pos (suc t))) s
          ≡ ok (returns success) r)
      × (r.ready_tids ≡ ys ++ suc t ∷ [])
      × ((k : ℕ) → r.all_threads k ≡ s.all_threads k)
      × ((k : ℕ) → r.blocked_tids k ≡ s.blocked_tids k)
uthread_block-uthread_resume os s t u well inv e st =
    let (ys, q, c) =
      erase_found-some (suc t) s.ready_tids (ground (arith, inv.placed (suc t), e, st)) in
    (
      ys,
      after ys,
      q,
      run ys q,
      refl,
      λ k. ground (arith, e, st),
      λ k. ground (arith, inv.placed (suc t), e, st),
    )
  where
    between : List ℕ → State
    between ys = record s {
      all_threads = update s.all_threads (suc t) (some (record u { status = blocked }));
      blocked_tids = update s.blocked_tids (suc t) true;
      ready_tids = ys;
      masked = false;
    }

    after : List ℕ → State
    after ys = record s {
      all_threads = update (between ys).all_threads (suc t) (some (record u { status = ready }));
      blocked_tids = update (between ys).blocked_tids (suc t) false;
      ready_tids = ys ++ suc t ∷ [];
      masked = false;
    }

    run :
        (ys : List ℕ)
        → erase_found (suc t) s.ready_tids ≡ some ys
        → (uthread_block os (pos (suc t)) >>= λ _. uthread_resume os (pos (suc t))) s
          ≡ ok (returns success) (after ys)
    run ys q =
        bind-eq (uthread_block os (pos (suc t))) (λ _. uthread_resume os (pos (suc t))) s
          (block_ready-eq os s t u ys well e st q)
          (resume_blocked-eq os (between ys) (suc t) (record u { status = blocked }) well
            (ground arith) refl)
