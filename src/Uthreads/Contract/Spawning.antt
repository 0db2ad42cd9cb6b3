-- ===== src/Uthreads/Contract/Spawning.antt =====
-- `uthread_spawn` where it is not refused, and when the ids are used up.
use user_level_threads_libra.Prelude.{
  ℕ, suc, ◌<◌, ◌≡◌, ◌≢◌, ◌↔◌, refl, subst, inl, inr, ap, ◌⊎◌, Option, ℤ, true, false, none, some,
  List, [], ◌∷◌, ◌++◌, pos, count, IsAscending, Option-cases, arith,
}
use user_level_threads_libra.Uthreads.State.{
  Os, State, update, max_thread_num, max_threads_err, failure,
}
use user_level_threads_libra.Uthreads.Process.{Result, ok}
use user_level_threads_libra.Uthreads.Scheduler.{Control, returns}
use user_level_threads_libra.Uthreads.Api.{new_thread, emplace, spawn_as, spawn_from, uthread_spawn}
use user_level_threads_libra.Uthreads.Program.{spawn, perform}
use user_level_threads_libra.Uthreads.Contract.Refusals.{refused, perform-refused}
use user_level_threads_libra.Uthreads.Healthy.{IsHealthy, block_vt_alarm-eq, unblock_vt_alarm-eq}
use user_level_threads_libra.Uthreads.Invariant.Defs.{Inv}

count_below : (k y : ℕ) (ys : List ℕ) → k < y → IsAscending (y ∷ ys) → count k (y ∷ ys) ≡ 0
count_below k y [] h a = ground arith
count_below k y (z ∷ zs) h a = ground (arith, count_below k z zs)

-- Under the invariant, there is no free id exactly when each id below MAX_THREAD_NUM has a thread.
pub free_ids-nil :
    (s : State)
    → Inv s
    → (s.free_ids ≡ []) ↔ ((k : ℕ) → k < max_thread_num → s.all_threads k ≢ none)
free_ids-nil s inv =
    (λ e k lt n. ground (arith, inv.placed k, e, n), λ all. used s.free_ids refl all)
  where
    used :
        (ids : List ℕ)
        → s.free_ids ≡ ids
        → ((k : ℕ) → k < max_thread_num → s.all_threads k ≢ none)
        → s.free_ids ≡ []
    used [] e all = e
    used (t ∷ ids) e all = ground (arith, inv.placed t, all t)

-- The first free id is the least id without a thread.
least_free :
    (s : State) (tid : ℕ) (ids : List ℕ)
    → Inv s
    → s.free_ids ≡ tid ∷ ids
    → (s.all_threads tid ≡ none) × ((k : ℕ) → k < tid → s.all_threads k ≢ none)
least_free s tid ids inv e = (free, smaller)
  where
    free : s.all_threads tid ≡ none
    free = elim (Option-cases (s.all_threads tid)) [
      | inl n ↦ n
      | inr (u, q) ↦ absurd (ground (arith, inv.placed tid, e, q))
    ]

    taken : (k : ℕ) → k < tid → count k s.free_ids ≡ 0
    taken k lt = rw e (count_below k tid ids lt (subst IsAscending e inv.ascending))

    bounded : tid < max_thread_num
    bounded = ground (arith, inv.placed tid, e, free)

    smaller : (k : ℕ) → k < tid → s.all_threads k ≢ none
    smaller k lt n = ground (arith, inv.placed k, n, taken k lt, bounded)

spawned :
    (os : Os) (s : State) (pc tid stack : ℕ) (ids : List ℕ)
    → IsHealthy os
    → s.free_ids ≡ tid ∷ ids
    → os.new_stack ≡ some stack
    → s.all_threads tid ≡ none
    → uthread_spawn os (suc pc) s
      ≡ ok (returns (pos tid)) (record s {
        free_ids = ids;
        all_threads = update s.all_threads tid (some (new_thread os tid (suc pc) stack));
        ready_tids = s.ready_tids ++ tid ∷ [];
        masked = false;
      })
unfolding uthread_spawn spawn_from spawn_as emplace
spawned os s pc tid stack ids well e n free = ground (
  arith,
  block_vt_alarm-eq well s,
  unblock_vt_alarm-eq well (record s {
    free_ids = ids;
    all_threads = update s.all_threads tid (some (new_thread os tid (suc pc) stack));
    ready_tids = s.ready_tids ++ tid ∷ [];
    masked = true;
  }),
)

-- On a healthy system with memory and under the invariant, `uthread_spawn` of a non-null entry point,
-- while an id is free, returns the least id that no thread has, takes it from the free ids, and puts a
-- new thread of that id at the end of the ready queue; nothing else changes, and SIGVTALRM is not
-- blocked.
pub uthread_spawn_lem :
    (os : Os) (s : State) (pc tid stack : ℕ) (ids : List ℕ)
    → IsHealthy os
    → Inv s
    → s.free_ids ≡ tid ∷ ids
    → os.new_stack ≡ some stack
    → (uthread_spawn os (suc pc) s
        ≡ ok (returns (pos tid)) (record s {
          free_ids = ids;
          all_threads = update s.all_threads tid (some (new_thread os tid (suc pc) stack));
          ready_tids = s.ready_tids ++ tid ∷ [];
          masked = false;
        }))
      × (s.all_threads tid ≡ none)
      × ((k : ℕ) → k < tid → s.all_threads k ≢ none)
uthread_spawn_lem os s pc tid stack ids well inv e n =
    let least = least_free s tid ids inv e in
    (spawned os s pc tid stack ids well e n least.0, least.0, least.1)

nil_or_cons : (xs : List ℕ) → (xs ≡ []) ⊎ ((x : ℕ) × (ys : List ℕ) × (xs ≡ x ∷ ys))
nil_or_cons [] = inl refl
nil_or_cons (x ∷ ys) = inr (x, ys, refl)

-- The number that a call returns.
abbrev pub number : Result State Control → Option ℤ
number (ok (returns n) s) = some n
number _ = none

-- On a healthy system with memory and under the invariant, `uthread_spawn` of a non-null entry point returns -1
-- exactly if each id below MAX_THREAD_NUM has a thread; it then prints that there are too many threads, changes
-- nothing else, and leaves SIGVTALRM blocked.
pub uthread_spawn-full :
    (os : Os) (s : State) (pc stack : ℕ)
    → IsHealthy os
    → Inv s
    → os.new_stack ≡ some stack
    → ((number (uthread_spawn os (suc pc) s) ≡ some failure)
        ↔ ((k : ℕ) → k < max_thread_num → s.all_threads k ≢ none))
      × (((k : ℕ) → k < max_thread_num → s.all_threads k ≢ none)
          → uthread_spawn os (suc pc) s ≡ ok (returns failure) (refused max_threads_err s))
unfolding perform
uthread_spawn-full os s pc stack well inv memory =
    ((fails_full, λ all. ap number (full_refused all)), full_refused)
  where
    full_refused :
        ((k : ℕ) → k < max_thread_num → s.all_threads k ≢ none)
        → uthread_spawn os (suc pc) s ≡ ok (returns failure) (refused max_threads_err s)
    full_refused all =
        perform-refused os (spawn (suc pc)) s max_threads_err well
          (rw ((free_ids-nil s inv).1 all) refl)

    fails_full :
        number (uthread_spawn os (suc pc) s) ≡ some failure
        → (k : ℕ) → k < max_thread_num
        → s.all_threads k ≢ none
    fails_full h = elim (nil_or_cons s.free_ids) [
      | inl e ↦ (free_ids-nil s inv).0 e
      | inr (tid, ids, e) ↦
          let done = (uthread_spawn_lem os s pc tid stack ids well inv e memory).0 in
          cc (h, ap number done)
    ]
