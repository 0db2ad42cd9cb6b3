-- ===== src/Uthreads/Defects/Sleepers.antt =====
-- `uthread_terminate` forgets `sleepers_`, and opens the signal mask before it has switched.
use user_level_threads_libra.Prelude.{
  ℕ, zero, suc, ◌==◌, ◌≡◌, refl, subst, inl, inr, true, false, none, some, List, [], ◌∷◌, pos,
  insert_sorted, Bool-cases, Option-cases, arith,
}
use user_level_threads_libra.Uthreads.State.{
  Os, State, UThread, Status, update, success, ready, blocked, asleep, in_handler,
}
use user_level_threads_libra.Uthreads.Process.{
  Result, ok, undefined, at_thread, set_status, push_ready,
}
use user_level_threads_libra.Uthreads.Signals.{block_vt_alarm, quantum_timer}
use user_level_threads_libra.Uthreads.Scheduler.{
  returns, wake, update_sleepers_from, update_sleepers, switch_threads, timer_handler,
}
use user_level_threads_libra.Uthreads.Api.{
  uthread_terminate, terminate_id, terminate_found, terminate_as,
}
use user_level_threads_libra.Uthreads.Healthy.{
  IsHealthy, block_vt_alarm-eq, unblock_vt_alarm-eq, switch_threads-Stays,
}
use user_level_threads_libra.Uthreads.Invariant.Defs.{Yields, Stays}
use user_level_threads_libra.Uthreads.Invariant.Rules.{bind-Yields, bind-eq}
use user_level_threads_libra.Uthreads.WakeUp.{counter}

-- The call does not come to an end in a state.
abbrev Fails {ℓ} : {A : Type ℓ} → Result State A → Type 0
Fails r = Yields (λ _ _. ⊥) r

undefined_of : {A : Type 0} (r : Result State A) → Stays r → Fails r → r ≡ undefined
undefined_of (ok a t) s f = absurd f
undefined_of (Result.exited c t) s f = absurd s
undefined_of undefined s f = refl

-- No thread has the id `k`, and `r` runs.
abbrev Absent : ℕ → ℕ → State → Type 0
Absent k r s = (s.all_threads k ≡ none) × (s.running_tid ≡ r)

module _ (k r : ℕ) where
  set_status-Fails : (st : Status) (s : State) → Absent k r s → Fails (set_status k st s)
  unfolding set_status at_thread
  set_status-Fails st s a = rw (a.0, at_thread) tt

  set_status-Absent :
      (j : ℕ) (st : Status) (s : State)
      → Absent k r s
      → Yields (λ _. Absent k r) (set_status j st s)
  unfolding set_status at_thread
  set_status-Absent j st s a = elim (Option-cases (s.all_threads j)) [
    | inl e ↦ rw (e, at_thread) tt
    | inr (u, e) ↦ rw (e, at_thread) (ground (arith, e), a.1)
  ]

  wake-Fails : (s : State) → Absent k r s → Fails (wake k s)
  unfolding wake
  wake-Fails s a = elim (Bool-cases (s.blocked_tids k)) [
    | inl e ↦ rw (e, wake) (set_status-Fails blocked s a)
    | inr e ↦
        rw (e, wake)
          (bind-Yields (λ _ _. ⊥) (λ _ _. ⊥) (set_status k ready) (λ _. push_ready k) s
            (set_status-Fails ready s a) (λ _ t f. absurd f))
  ]

  wake-Absent : (j : ℕ) (s : State) → Absent k r s → Yields (λ _. Absent k r) (wake j s)
  unfolding wake
  wake-Absent j s a = elim (Bool-cases (s.blocked_tids j)) [
    | inl e ↦ rw (e, wake) (set_status-Absent j blocked s a)
    | inr e ↦
        rw (e, wake)
          (bind-Yields (λ _. Absent k r) (λ _. Absent k r) (set_status j ready) (λ _. push_ready j)
            s (set_status-Absent j ready s a) (λ _ t f. f))
  ]

  -- A sleeper without a thread is fatal when its time is over.
  update_sleepers_from-Fails :
      (es : List (ℕ × ℕ)) (s : State)
      → Absent k r s
      → counter k es ≡ some 0
      → Fails (update_sleepers_from es s)
  unfolding update_sleepers_from
  update_sleepers_from-Fails [] s a c = cc
  update_sleepers_from-Fails ((j, zero) ∷ rest) s a c = elim (Bool-cases (j == k)) [
    | inl e ↦
        let q : k ≡ j = ground (arith, e) in
        bind-Yields (λ _ _. ⊥) (λ _ _. ⊥) (wake j) (λ _. update_sleepers_from rest) s
          (subst (λ i. Fails (wake i s)) q (wake-Fails s a)) (λ _ t f. absurd f)
    | inr e ↦
        bind-Yields (λ _. Absent k r) (λ _ _. ⊥) (wake j) (λ _. update_sleepers_from rest) s
          (wake-Absent j s a) (λ _ t b. update_sleepers_from-Fails rest t b (ground (arith, e)))
  ]
  update_sleepers_from-Fails ((j, suc n) ∷ rest) s a c = elim (Bool-cases (j == k)) [
    | inl e ↦ absurd (ground (arith, e))
    | inr e ↦ update_sleepers_from-Fails rest _ a (ground (arith, e))
  ]

  rest_of_handler-Fails :
      (os : Os) (s : State)
      → Fails (update_sleepers s)
      → Fails (switch_threads os ready in_handler s)
  unfolding switch_threads
  rest_of_handler-Fails os s f =
      bind-Yields (λ _ _. ⊥) (λ _ _. ⊥) update_sleepers _ s f (λ _ t z. absurd z)

handler_undefined :
    (os : Os) (s : State)
    → IsHealthy os
    → Fails (switch_threads os ready in_handler (record s { masked = true }))
    → timer_handler os s ≡ undefined
unfolding timer_handler
handler_undefined os s well f =
    bind-eq (block_vt_alarm os) (λ _. switch_threads os ready in_handler) s
      (block_vt_alarm-eq well s)
      (undefined_of (switch_threads os ready in_handler (record s { masked = true }))
        (switch_threads-Stays well ready in_handler (record s { masked = true })) f)

-- The state after the termination of a sleeper: `sleepers_` still has its entry.
abbrev pub forgotten : ℕ → State → State
forgotten t s = record s {
  free_ids = insert_sorted t s.free_ids;
  all_threads = update s.all_threads t none;
  masked = false;
}

-- On a healthy system, a sleeping thread other than the main one whose counter is 0 can be terminated,
-- and its entry in `sleepers` stays; an alarm that is handled right after that is undefined behaviour.
pub uthread_terminate-asleep :
    (os : Os) (s : State) (t : ℕ) (u : UThread)
    → IsHealthy os
    → s.all_threads (suc t) ≡ some u
    → u.status ≡ asleep
    → counter (suc t) s.sleepers ≡ some 0
    → (uthread_terminate os (pos (suc t)) s ≡ ok (returns success) (forgotten (suc t) s))
      × (timer_handler os (forgotten (suc t) s) ≡ undefined)
unfolding uthread_terminate terminate_id terminate_found terminate_as
uthread_terminate-asleep os s t u well e st c = (
  ground (
    arith,
    block_vt_alarm-eq well s,
    unblock_vt_alarm-eq well (record (forgotten (suc t) s) { masked = true }),
  ),
  handler_undefined os (forgotten (suc t) s) well (
      rest_of_handler-Fails (suc t) s.running_tid os
        (record (forgotten (suc t) s) { masked = true })
        (unfold update_sleepers in
          update_sleepers_from-Fails (suc t) s.running_tid s.sleepers _ (ground arith, refl) c)),
)

-- The state in which `uthread_terminate` of the running thread `t` calls `switch_threads`.
abbrev pub deleted : ℕ → State → State
deleted t s = record (forgotten t s) { timer = quantum_timer s.quantum; armed = true }
