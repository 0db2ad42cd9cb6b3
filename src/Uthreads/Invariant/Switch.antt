-- ===== src/Uthreads/Invariant/Switch.antt =====
-- The steps of `switch_threads` keep the invariant, and none of them is undefined.
use user_level_threads_libra.Prelude.{
  ℕ, ◌+◌, ◌==◌, ◌≢◌, refl, sym, subst, inl, inr, Bool, true, false, [], one_at, Option-cases,
  ==-refl, arith,
}
use user_level_threads_libra.Uthreads.State.{
  Os, State, Point, SystemError, ready, blocked, asleep, terminated, at_entry, in_handler, in_block,
  in_sleep, in_terminate, in_constructor,
}
use user_level_threads_libra.Uthreads.Process.{M, ◌>>=◌, ◌>>◌, die_if, at_thread}
use user_level_threads_libra.Uthreads.Signals.{block_vt_alarm, unblock_vt_alarm}
use user_level_threads_libra.Uthreads.Scheduler.{
  Control, update_sleepers, insert_ready_to_running, leave, count_quantum, resume_at,
  save_environment, start_running, jump, switch_threads, timer_handler,
}
use user_level_threads_libra.Uthreads.Invariant.Rules.{bind-Ensures, step-Ensures, at_thread-eq}
use user_level_threads_libra.Uthreads.Invariant.Sleepers.{update_sleepers-Inside}
use user_level_threads_libra.Uthreads.Invariant.Leaving.{
  nobody, fresh, Chosen, run_first-Chosen, leave_ready-Inside, leave_blocked-Inside,
  save_environment-Inside,
}
use user_level_threads_libra.Uthreads.Invariant.Defs.{Ensures, EnvFits, Resumable, Inside, Inv}

module _ (os : Os) where
  die_if-Ensures :
      {A : Type 0} (Q : A → State → Type 0) (b : Bool) (e : SystemError) (f : Unit {0} → M A)
      (s : State)
      → Ensures Q (f tt s)
      → Ensures Q ((die_if b e >>= f) s)
  unfolding die_if
  die_if-Ensures Q true e f s h = tt
  die_if-Ensures Q false e f s h = h

  pub block_vt_alarm-Ensures :
      {A : Type 0} (Q : A → State → Type 0) (f : Unit {0} → M A) (s : State)
      → Ensures Q (f tt (record s { masked = true }))
      → Ensures Q ((block_vt_alarm os >>= f) s)
  unfolding block_vt_alarm die_if
  block_vt_alarm-Ensures Q f s h = ground (arith, h)

  pub unblock_vt_alarm-Ensures :
      {A : Type 0} (Q : A → State → Type 0) (f : Unit {0} → M A) (s : State)
      → Ensures Q (f tt (record s { masked = false }))
      → Ensures Q ((unblock_vt_alarm os >>= f) s)
  unfolding unblock_vt_alarm die_if
  unblock_vt_alarm-Ensures Q f s h = ground (arith, h)

  pub remask : {s : State} (b : Bool) → Inv s → Inv (record s { masked = b })
  remask b inv = record {
    placed = inv.placed;
    envs = inv.envs;
    known = inv.known;
    here = refl;
    mask = refl;
    ascending = inv.ascending;
  }

  resume_at-Inv :
      (p : Point) (s : State) → Resumable p s.masked → Inv s → Ensures (λ _. Inv) (resume_at os p s)
  unfolding resume_at
  resume_at-Inv in_constructor s h inv = h
  resume_at-Inv (at_entry sp pc) s h inv = inv
  resume_at-Inv in_handler s h inv = unblock_vt_alarm-Ensures (λ _. Inv) _ s (remask false inv)
  resume_at-Inv in_block s h inv = unblock_vt_alarm-Ensures (λ _. Inv) _ s (remask false inv)
  resume_at-Inv in_sleep s h inv = inv
  resume_at-Inv in_terminate s h inv = absurd h

  start_running-Inv :
      {m : Bool} {s : State} → Chosen fresh m s → Ensures (λ _. Inv) (start_running os s)
  unfolding start_running
  start_running-Inv {m} {s} inv = elim (Option-cases (s.all_threads s.running_tid)) [
    | inl n ↦ absurd (ground (arith, inv.placed s.running_tid, n))
    | inr (u, e) ↦
        step-Ensures (λ _. Inv) (at_thread s.running_tid _) _ s (at_thread-eq s.running_tid _ s u e)
          (rw (==-refl s.running_tid) (
            resume_at-Inv u.env.point _ (subst EnvFits e (inv.envs s.running_tid refl)) (record {
              placed = λ k. ground (arith, inv.placed k, e);
              envs = λ k h. ground (arith, inv.envs k, e);
              known = λ k h. ground (arith, e);
              here = refl;
              mask = refl;
              ascending = inv.ascending;
            })))
  ]

  jump-Inv : {m : Bool} {s : State} → Chosen fresh m s → Ensures (λ _. Inv) (jump os s)
  unfolding jump
  jump-Inv {m} {s} inv =
      unblock_vt_alarm-Ensures (λ _. Inv) (λ _. start_running os) s
        (start_running-Inv (record {
          placed = inv.placed;
          envs = inv.envs;
          known = inv.known;
          here = refl;
          mask = refl;
          ascending = inv.ascending;
        }))

  finish : ℕ → Point → M Control
  finish r p = do insert_ready_to_running; count_quantum; save_environment r p; jump os

  finish-Inv :
      (r : ℕ) (p : Point) {s : State}
      → Resumable p true
      → Inside nobody (λ t. r == t) [] r true s
      → Ensures (λ _. Inv) (finish r p s)
  unfolding finish insert_ready_to_running
  finish-Inv r p {s} h inv =
      bind-Ensures (λ _. Chosen (λ t. r == t) true) (λ _. Inv) insert_ready_to_running _ s
        (run_first-Chosen s.ready_tids refl inv)
        λ _ t c.
          bind-Ensures (λ _. Inside (one_at t.running_tid) fresh [] t.running_tid true) (λ _. Inv)
            (save_environment r p) (λ _. jump os)
            (record t { total_quantums = t.total_quantums + 1 })
            (save_environment-Inside r p h (record {
              placed = c.placed;
              envs = c.envs;
              known = c.known;
              here = refl;
              mask = c.mask;
              ascending = c.ascending;
            }))
            λ _ q d. jump-Inv (subst (λ k. Inside (one_at k) fresh [] k true q) (sym d.here) d)

  pub switch_ready-Inv :
      (r : ℕ) (p : Point) {s : State}
      → Resumable p true
      → Inside (one_at r) (λ t. r == t) [] r true s
      → Ensures (λ _. Inv) (switch_threads os ready p s)
  unfolding switch_threads finish
  switch_ready-Inv r p {s} h inv =
      bind-Ensures (λ _. Inside (one_at r) (λ t. r == t) [] r true) (λ _. Inv) update_sleepers _ s
        (update_sleepers-Inside inv)
        λ _ t c.
          subst (λ k. Ensures (λ _. Inv) ((leave ready k >> finish k p) t)) (sym c.here)
            (bind-Ensures (λ _. Inside nobody (λ t. r == t) [] r true) (λ _. Inv) (leave ready r)
              (λ _. finish r p) t (leave_ready-Inside r c) λ _ q d. finish-Inv r p h d)

  pub switch_blocked-Inv :
      (r : ℕ) (p : Point) {s : State}
      → r ≢ 0
      → Resumable p true
      → Inside (one_at r) (λ t. r == t) [] r true s
      → Ensures (λ _. Inv) (switch_threads os blocked p s)
  unfolding switch_threads finish
  switch_blocked-Inv r p {s} r0 h inv =
      bind-Ensures (λ _. Inside (one_at r) (λ t. r == t) [] r true) (λ _. Inv) update_sleepers _ s
        (update_sleepers-Inside inv)
        λ _ t c.
          subst (λ k. Ensures (λ _. Inv) ((leave blocked k >> finish k p) t)) (sym c.here)
            (bind-Ensures (λ _. Inside nobody (λ t. r == t) [] r true) (λ _. Inv) (leave blocked r)
              (λ _. finish r p) t (leave_blocked-Inside r r0 c) λ _ q d. finish-Inv r p h d)

  -- The running thread has become a sleeper.
  pub switch_asleep-Inv :
      (r : ℕ) (p : Point) {s : State}
      → Resumable p true
      → Inside nobody (λ t. r == t) [] r true s
      → Ensures (λ _. Inv) (switch_threads os asleep p s)
  unfolding switch_threads finish
  switch_asleep-Inv r p {s} h inv =
      bind-Ensures (λ _. Inside nobody (λ t. r == t) [] r true) (λ _. Inv) update_sleepers _ s
        (update_sleepers-Inside inv)
        λ _ t c.
          subst (λ k. Ensures (λ _. Inv) ((leave asleep k >> finish k p) t)) (sym c.here)
            (unfold leave in finish-Inv r p h c)

  -- The running thread has been deleted.
  pub switch_terminated-Inv :
      (r : ℕ) (p : Point) {m : Bool} {s : State}
      → Inside nobody fresh [] r m s
      → Ensures (λ _. Inv) (switch_threads os terminated p s)
  unfolding switch_threads insert_ready_to_running
  switch_terminated-Inv r p {m} {s} inv =
      bind-Ensures (λ _. Inside nobody fresh [] r m) (λ _. Inv) update_sleepers _ s
        (update_sleepers-Inside inv)
        λ _ t c.
          bind-Ensures (λ _. Chosen fresh m) (λ _. Inv) insert_ready_to_running _ t
            (run_first-Chosen t.ready_tids refl c)
            λ _ q d. jump-Inv (record {
              placed = d.placed;
              envs = d.envs;
              known = d.known;
              here = refl;
              mask = d.mask;
              ascending = d.ascending;
            })

  -- An alarm, in any state in which it can come.
  pub timer_handler-Inv : (s : State) → Inv s → Ensures (λ _. Inv) (timer_handler os s)
  unfolding timer_handler
  timer_handler-Inv s inv =
      block_vt_alarm-Ensures (λ _. Inv) _ s
        (switch_ready-Inv s.running_tid in_handler refl (remask true inv))
