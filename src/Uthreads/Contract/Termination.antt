-- ===== src/Uthreads/Contract/Termination.antt =====
-- `uthread_terminate` on a thread that is ready or blocked.
use user_level_threads_libra.Prelude.{
  ℕ, suc, ◌<◌, ◌≡◌, ◌≢◌, ◌⊎◌, refl, subst, inl, inr, true, false, none, some, List, pos, count,
  erase_found, erase_found-some, insert_sorted, arith,
}
use user_level_threads_libra.Uthreads.State.{
  Os, State, UThread, ready, blocked, asleep, update, success, max_thread_num,
}
use user_level_threads_libra.Uthreads.Process.{ok}
use user_level_threads_libra.Uthreads.Scheduler.{Control, returns}
use user_level_threads_libra.Uthreads.Api.{
  terminate_as, terminate_found, terminate_id, uthread_terminate, erase_ready,
}
use user_level_threads_libra.Uthreads.Healthy.{IsHealthy, block_vt_alarm-eq, unblock_vt_alarm-eq}
use user_level_threads_libra.Uthreads.Invariant.Defs.{Ensures, Returns, Inv, keys}
use user_level_threads_libra.Uthreads.Invariant.Terminating.{uthread_terminate-Inv}

-- `uthread_terminate` on a thread that is ready or blocked.
terminate_ready-eq :
    (os : Os) (s : State) (t : ℕ) (u : UThread) (ys : List ℕ)
    → IsHealthy os
    → s.all_threads (suc t) ≡ some u
    → u.status ≡ ready
    → erase_found (suc t) s.ready_tids ≡ some ys
    → uthread_terminate os (pos (suc t)) s
      ≡ ok (returns success) (record s {
        free_ids = insert_sorted (suc t) s.free_ids;
        all_threads = update s.all_threads (suc t) none;
        ready_tids = ys;
        masked = false;
      })
unfolding uthread_terminate terminate_id terminate_found terminate_as erase_ready
terminate_ready-eq os s t u ys well e st q = ground (
  arith,
  block_vt_alarm-eq well s,
  unblock_vt_alarm-eq well (record s {
    free_ids = insert_sorted (suc t) s.free_ids;
    all_threads = update s.all_threads (suc t) none;
    ready_tids = ys;
    masked = true;
  }),
)

terminate_blocked-eq :
    (os : Os) (s : State) (t : ℕ) (u : UThread)
    → IsHealthy os
    → s.all_threads (suc t) ≡ some u
    → u.status ≡ blocked
    → uthread_terminate os (pos (suc t)) s
      ≡ ok (returns success) (record s {
        free_ids = insert_sorted (suc t) s.free_ids;
        all_threads = update s.all_threads (suc t) none;
        blocked_tids = update s.blocked_tids (suc t) false;
        masked = false;
      })
unfolding uthread_terminate terminate_id terminate_found terminate_as
terminate_blocked-eq os s t u well e st = ground (
  arith,
  block_vt_alarm-eq well s,
  unblock_vt_alarm-eq well (record s {
    free_ids = insert_sorted (suc t) s.free_ids;
    all_threads = update s.all_threads (suc t) none;
    blocked_tids = update s.blocked_tids (suc t) false;
    masked = true;
  }),
)

-- No thread has the id `k`, no container of the library holds it, and it is free again.
abbrev pub Gone : ℕ → State → Type 0
Gone k s =
    (s.all_threads k ≡ none)
    × (count k s.ready_tids ≡ 0)
    × (count k (keys s.sleepers) ≡ 0)
    × (s.blocked_tids k ≡ false)
    × (count k s.free_ids ≡ 1)

Inv-Gone : (s : State) (k : ℕ) → Inv s → k < max_thread_num → s.all_threads k ≡ none → Gone k s
Inv-Gone s k inv lt e = (
  e,
  ground (arith, inv.placed k, e),
  ground (arith, inv.placed k, e),
  ground (arith, inv.placed k, e),
  ground (arith, inv.placed k, e),
)

-- The statement of `uthread_terminate_lem` about a result.
abbrev pub Terminates : ℕ → State → Control → State → Type 0
Terminates k s c r =
    (c ≡ returns success)
    × Inv r
    × Gone k r
    × (r.masked ≡ false)
    × (r.running_tid ≡ s.running_tid)
    × ((j : ℕ) → j ≢ k → r.all_threads j ≡ s.all_threads j)

uthread_terminate-Terminates :
    (os : Os) (s : State) (t : ℕ) (u : UThread) (r : State)
    → Inv s
    → s.all_threads (suc t) ≡ some u
    → u.status ≢ asleep
    → uthread_terminate os (pos (suc t)) s ≡ ok (returns success) r
    → r.all_threads ≡ update s.all_threads (suc t) none
    → r.masked ≡ false
    → r.running_tid ≡ s.running_tid
    → Returns (Terminates (suc t) s) (uthread_terminate os (pos (suc t)) s)
uthread_terminate-Terminates os s t u r inv e na run threads m w = rw run (
  refl,
  kept,
  Inv-Gone r (suc t) kept (ground (arith, inv.placed (suc t), e)) (rw threads (ground arith)),
  m,
  w,
  λ j ne. rw threads (ground arith),
)
  where
    kept : Inv r
    kept = subst (Ensures (λ _. Inv)) run (uthread_terminate-Inv os (pos (suc t)) (rw e na) inv)

-- On a healthy system and under the invariant, to terminate a thread other than the main one that is
-- ready or blocked returns 0, removes it from every container of the library and makes
-- its id free; no other thread changes, the caller goes on running, and SIGVTALRM is not blocked.
pub uthread_terminate_lem :
    (os : Os) (s : State) (t : ℕ) (u : UThread)
    → IsHealthy os
    → Inv s
    → s.all_threads (suc t) ≡ some u
    → (u.status ≡ ready) ⊎ (u.status ≡ blocked)
    → Returns (Terminates (suc t) s) (uthread_terminate os (pos (suc t)) s)
uthread_terminate_lem os s t u well inv e (inl st) =
    let (ys, q, c) =
      erase_found-some (suc t) s.ready_tids (ground (arith, inv.placed (suc t), e, st)) in
    uthread_terminate-Terminates os s t u _ inv e (λ z. cc)
      (terminate_ready-eq os s t u ys well e st q) refl refl refl
uthread_terminate_lem os s t u well inv e (inr st) =
    uthread_terminate-Terminates os s t u _ inv e (λ z. cc)
      (terminate_blocked-eq os s t u well e st) refl refl refl
