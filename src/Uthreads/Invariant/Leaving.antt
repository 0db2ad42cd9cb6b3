-- ===== src/Uthreads/Invariant/Leaving.antt =====
-- The steps of `switch_threads` between `update_sleepers` and the jump.
use user_level_threads_libra.Prelude.{
  ℕ, ◌==◌, ◌≡◌, ◌≢◌, refl, inl, inr, Bool, false, List, [], ◌∷◌, one_at, count-snoc, Option-cases,
  arith,
}
use user_level_threads_libra.Uthreads.State.{State, Point, ready, blocked}
use user_level_threads_libra.Uthreads.Process.{set_status, at_thread}
use user_level_threads_libra.Uthreads.Scheduler.{run_first, leave, save_environment}
use user_level_threads_libra.Uthreads.Invariant.Defs.{Ensures, Resumable, Inside}

-- Nobody runs.
abbrev pub nobody : ℕ → ℕ
nobody _ = 0

abbrev pub fresh : ℕ → Bool
fresh _ = false

-- Some thread has been chosen.
abbrev pub Chosen : (ℕ → Bool) → Bool → State → Type 0
Chosen stale m s = Inside (one_at s.running_tid) stale [] s.running_tid m s

module _ {stale : ℕ → Bool} {r : ℕ} {m : Bool} where
  -- The queue is not empty while nobody runs: the main thread stands in it.
  pub run_first-Chosen :
      (ts : List ℕ) {s : State}
      → s.ready_tids ≡ ts
      → Inside nobody stale [] r m s
      → Ensures (λ _. Chosen stale m) (run_first ts s)
  unfolding run_first
  run_first-Chosen [] {s} e inv = absurd (ground (arith, inv.placed 0, e))
  run_first-Chosen (t ∷ rest) {s} e inv = elim (Option-cases (s.all_threads t)) [
    | inl n ↦ absurd (ground (arith, inv.placed t, n, e))
    | inr (u, q) ↦
        rw (q, set_status, at_thread)
          (record {
            placed = λ k. ground (arith, inv.placed k, inv.placed t, e, q);
            envs = λ k h. ground (arith, inv.envs k h, inv.envs t);
            known = λ k h. ground (arith, inv.known k h, inv.known t);
            here = refl;
            mask = inv.mask;
            ascending = inv.ascending;
          })
  ]

module _ (r : ℕ) {m : Bool} where
  pub leave_ready-Inside :
      {s : State}
      → Inside (one_at r) (λ t. r == t) [] r m s
      → Ensures (λ _. Inside nobody (λ t. r == t) [] r m) (leave ready r s)
  unfolding leave
  leave_ready-Inside {s} inv = elim (Option-cases (s.all_threads r)) [
    | inl n ↦ absurd (ground (arith, inv.known r, n))
    | inr (u, q) ↦
        rw (q, set_status, at_thread)
          (record {
            placed =
                λ k. ground (arith, inv.placed k, inv.placed r, q, count-snoc k s.ready_tids r);
            envs = λ k h. ground (arith, inv.envs k h, inv.envs r);
            known = λ k h. ground (arith, inv.known k h, inv.known r);
            here = inv.here;
            mask = inv.mask;
            ascending = inv.ascending;
          })
  ]

  pub leave_blocked-Inside :
      {s : State}
      → r ≢ 0
      → Inside (one_at r) (λ t. r == t) [] r m s
      → Ensures (λ _. Inside nobody (λ t. r == t) [] r m) (leave blocked r s)
  unfolding leave
  leave_blocked-Inside {s} r0 inv = elim (Option-cases (s.all_threads r)) [
    | inl n ↦ absurd (ground (arith, inv.known r, n))
    | inr (u, q) ↦
        rw (q, set_status, at_thread)
          (record {
            placed = λ k. ground (arith, inv.placed k, inv.placed r, q);
            envs = λ k h. ground (arith, inv.envs k h, inv.envs r);
            known = λ k h. ground (arith, inv.known k h, inv.known r);
            here = inv.here;
            mask = inv.mask;
            ascending = inv.ascending;
          })
  ]

  pub save_environment-Inside :
      {runs : ℕ → ℕ} {q : ℕ} (p : Point) {s : State}
      → Resumable p m
      → Inside runs (λ t. r == t) [] q m s
      → Ensures (λ _. Inside runs fresh [] q m) (save_environment r p s)
  unfolding save_environment
  save_environment-Inside p {s} ok_here inv = elim (Option-cases (s.all_threads r)) [
    | inl n ↦ absurd (ground (arith, inv.known r, n))
    | inr (u, e) ↦
        rw (e, at_thread)
          (record {
            placed = λ k. ground (arith, inv.placed k, e);
            envs = λ k h. ground (arith, inv.envs k, ok_here, inv.mask);
            known = λ k h. absurd (cc);
            here = inv.here;
            mask = inv.mask;
            ascending = inv.ascending;
          })
  ]
