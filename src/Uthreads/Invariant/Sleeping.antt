-- ===== src/Uthreads/Invariant/Sleeping.antt =====
-- `uthread_sleep` and `uthread_get_quantums` keep the invariant.
use user_level_threads_libra.Prelude.{
  ℕ, zero, suc, ◌+◌, ◌≡◌, refl, inl, inr, true, false, Option, none, some, List, [], ◌∷◌, ℤ, pos,
  negsuc, count, one_at, Option-cases, arith,
}
use user_level_threads_libra.Uthreads.State.{
  Os, State, UThread, asleep, update, in_sleep, failure, tid_not_exist, sleep_thread_zero,
  input_err,
}
use user_level_threads_libra.Uthreads.Process.{set_status}
use user_level_threads_libra.Uthreads.Scheduler.{returns}
use user_level_threads_libra.Uthreads.Api.{
  sleep_as, sleep_if, uthread_sleep, quantums_found, uthread_get_quantums, emplace_sorted,
  thread_of,
}
use user_level_threads_libra.Uthreads.Invariant.Rules.{step-Ensures, at_thread-eq}
use user_level_threads_libra.Uthreads.Invariant.Switch.{
  block_vt_alarm-Ensures, unblock_vt_alarm-Ensures, remask, switch_asleep-Inv,
}
use user_level_threads_libra.Uthreads.Invariant.Defs.{Ensures, keys, Inv}
use user_level_threads_libra.Uthreads.Invariant.Steps.{reset_timer-Ensures, fail_with-Inv}

count-keys-emplace :
    (k t n : ℕ) (m : List (ℕ × ℕ))
    → count t (keys m) ≡ 0
    → count k (keys (emplace_sorted t n m)) ≡ count k (keys m) + one_at t k
unfolding emplace_sorted
count-keys-emplace k t n [] h = omega arith
count-keys-emplace k t n ((j, w) ∷ m) h = ground (arith, count-keys-emplace k t n m)

-- The state in which `sleep_as` starts the timer.
abbrev dozing : ℕ → ℕ → UThread → State → State
dozing t n u s = record s {
  all_threads = update s.all_threads (suc t) (some (record u { status = asleep }));
  sleepers = emplace_sorted (suc t) n s.sleepers;
  masked = true;
}

module _ (os : Os) where
  sleep_as-Inv :
      (t n : ℕ) {s : State}
      → s.running_tid ≡ suc t
      → Inv s
      → Ensures (λ _. Inv) (sleep_as os (suc t) n (record s { masked = true }))
  unfolding sleep_as
  sleep_as-Inv t n {s} r inv = elim (Option-cases (s.all_threads (suc t))) [
    | inl q ↦ absurd (ground (arith, inv.known (suc t), q, r))
    | inr (u, e) ↦
        step-Ensures (λ _. Inv) (set_status (suc t) asleep) _ (record s { masked = true })
          (at_thread-eq (suc t) _ (record s { masked = true }) u e)
          (reset_timer-Ensures os (λ _. Inv) _ (dozing t n u s)
            λ v. switch_asleep-Inv os (suc t) in_sleep refl (record {
              placed = λ k. ground (
                arith,
                inv.placed k,
                inv.placed (suc t),
                e,
                r,
                count-keys-emplace k (suc t) n s.sleepers,
              );
              envs = λ k h. ground (arith, inv.envs k, e, r);
              known = λ k h. ground (arith, inv.known k, e, r);
              here = r;
              mask = refl;
              ascending = inv.ascending;
            }))
  ]

  sleep_if-Inv :
      (r : ℕ) (n : ℤ) {s : State}
      → s.running_tid ≡ r
      → Inv s
      → Ensures (λ _. Inv) (sleep_if os r n (record s { masked = true }))
  unfolding sleep_if
  sleep_if-Inv zero n e inv =
      fail_with-Inv os (returns failure) sleep_thread_zero (remask os true inv)
  sleep_if-Inv (suc t) (negsuc _) e inv =
      fail_with-Inv os (returns failure) input_err (remask os true inv)
  sleep_if-Inv (suc t) (pos n) e inv = sleep_as-Inv t n e inv

  pub uthread_sleep-Inv : (n : ℤ) {s : State} → Inv s → Ensures (λ _. Inv) (uthread_sleep os n s)
  unfolding uthread_sleep
  uthread_sleep-Inv n {s} inv =
      block_vt_alarm-Ensures os (λ _. Inv) _ s (sleep_if-Inv s.running_tid n refl inv)

  quantums_found-Inv :
      (o : Option UThread) {s : State} → Inv s → Ensures (λ _. Inv) (quantums_found os o s)
  unfolding quantums_found
  quantums_found-Inv none inv = fail_with-Inv os (returns failure) tid_not_exist inv
  quantums_found-Inv (some u) {s} inv =
      unblock_vt_alarm-Ensures os (λ _. Inv) _ s (remask os false inv)

  pub uthread_get_quantums-Inv :
      (tid : ℤ) {s : State} → Inv s → Ensures (λ _. Inv) (uthread_get_quantums os tid s)
  unfolding uthread_get_quantums
  uthread_get_quantums-Inv tid {s} inv =
      block_vt_alarm-Ensures os (λ _. Inv) _ s
        (quantums_found-Inv (thread_of tid s.all_threads) (remask os true inv))
